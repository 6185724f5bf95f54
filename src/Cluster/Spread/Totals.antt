-- ===== src/Cluster/Spread/Totals.antt =====
-- What `SlotDistribution` of internal/cluster/cluster.go has counted after a number of accesses.
use redis_meter.Base.{
  ℕ, ◌+◌, ◌<◌, ◌≡◌, refl, ap, ◌∙◌, Bool-cases, inl, inr, List, [], ◌∷◌, String, str_eq, eq_iff,
  ◌==◌, if◌then◌else◌, length, arith,
}
use mathlib.Core.Path.{subst}
use redis_meter.Base.Int.{ℤ, pos, add, add-pos, int_limit}
use redis_meter.Base.Dict.{get, get-put}
use redis_meter.Base.Text.{Text}
use redis_meter.Cluster.Slot.{get_slot_for_key}
use redis_meter.Cluster.Spread.{
  Counts, add_count, SlotDistribution, new_slot_distribution, count_or_zero, add_node_count,
  record_key, sum_from, group_of, group_slots, get_distribution_stats,
}

-- The counts are those of `n` accesses.
abbrev pub CountsUp : Counts → ℕ → Type 0
CountsUp [] n = n ≡ 0
CountsUp ((k, v) ∷ m) n = (a : ℕ) × (b : ℕ) × (v ≡ pos a) × (n ≡ a + b) × CountsUp m b

add_count-CountsUp :
    (m : Counts) (k d n : ℕ)
    → n + d < int_limit
    → CountsUp m n
    → CountsUp (add_count m k (pos d)) (n + d)
unfolding add_count
add_count-CountsUp [] k d n h c =
    (d, 0, add-pos 0 d (omega arith) ∙ ap pos (omega arith), omega arith, refl)
add_count-CountsUp ((j, v) ∷ m) k d n h (a, b, e, s, c) = elim (Bool-cases (j == k)) [
  | inl q ↦ rw q (a + d, b, ap (λ x. add x (pos d)) e ∙ add-pos a d (omega arith), omega arith, c)
  | inr q ↦ rw q (a, b + d, e, omega arith, add_count-CountsUp m k d b (omega arith) c)
]

sum_from-CountsUp :
    (m : Counts) (t n : ℕ) → t + n < int_limit → CountsUp m n → sum_from (pos t) m ≡ pos (t + n)
unfolding sum_from
sum_from-CountsUp [] t n h c = ap pos (omega arith)
sum_from-CountsUp ((k, v) ∷ m) t n h (a, b, e, s, c) =
    ap (λ x. sum_from (add (pos t) x) m) e
    ∙ ap (λ x. sum_from x m) (add-pos t a (omega arith))
    ∙ sum_from-CountsUp m (t + a) b (omega arith) c
    ∙ ap pos (omega arith)

group_slots-CountsUp :
    (m g : Counts) (t n : ℕ)
    → t + n < int_limit
    → CountsUp g t
    → CountsUp m n
    → CountsUp (group_slots g m) (t + n)
unfolding group_slots
group_slots-CountsUp [] g t n h w c = subst (CountsUp g) (omega arith) w
group_slots-CountsUp ((k, v) ∷ m) g t n h w (a, b, e, s, c) = rw (ap (add_count g (group_of k)) e) (
    subst (CountsUp _) (omega arith) (
      group_slots-CountsUp m (add_count g (group_of k) (pos a)) (t + a) b (omega arith)
        (add_count-CountsUp g (group_of k) a t (omega arith) w) c))

-- The count of a number, and how often a slot and a node stand in a list of accesses.
pub count_at : Counts → ℕ → ℤ
count_at [] k = pos 0
count_at ((j, v) ∷ m) k = let rest = count_at m k in if j == k then v else rest

pub accesses_of_slot : ℕ → List (Text × String) → ℕ
accesses_of_slot slot [] = 0
accesses_of_slot slot ((key, address) ∷ rest) =
    (if get_slot_for_key key == slot then 1 else 0) + accesses_of_slot slot rest

pub accesses_of_node : String → List (Text × String) → ℕ
accesses_of_node node [] = 0
accesses_of_node node ((key, address) ∷ rest) =
    (if str_eq address node then 1 else 0) + accesses_of_node node rest

pub record_keys : SlotDistribution → List (Text × String) → SlotDistribution
record_keys d [] = d
record_keys d ((key, address) ∷ rest) = record_keys (record_key d key address) rest

count_at-add_count :
    (m : Counts) (k j : ℕ) (d : ℤ)
    → count_at (add_count m k d) j ≡ (if k == j then add (count_at m k) d else count_at m j)
unfolding count_at add_count
count_at-add_count [] k j d = ground arith
count_at-add_count ((i, v) ∷ m) k j d = ground (arith, count_at-add_count m k j d)

record_key-counts :
    (d : SlotDistribution) (key : Text) (address : String) (slot n : ℕ)
    → n + 1 < int_limit
    → count_at d.counts slot ≡ pos n
    → count_at (record_key d key address).counts slot
      ≡ pos (n + (if get_slot_for_key key == slot then 1 else 0))
unfolding record_key
record_key-counts d key address slot n h e =
    ground (arith, count_at-add_count d.counts (get_slot_for_key key) slot (pos 1), add-pos n 1 h)

record_key-nodes :
    (d : SlotDistribution) (key : Text) (address node : String) (n : ℕ)
    → n + 1 < int_limit
    → count_or_zero (get d.node_count node) ≡ pos n
    → count_or_zero (get (record_key d key address).node_count node)
      ≡ pos (n + (if str_eq address node then 1 else 0))
unfolding record_key add_node_count
record_key-nodes d key address node n h e =
    let v = add (count_or_zero (get d.node_count address)) (pos 1) in
    ground (arith, get-put d.node_count address node v, add-pos n 1 h, eq_iff address node)

record_keys-counts :
    (log : List (Text × String)) (d : SlotDistribution) (slot n : ℕ)
    → n + length log < int_limit
    → count_at d.counts slot ≡ pos n
    → count_at (record_keys d log).counts slot ≡ pos (n + accesses_of_slot slot log)
unfolding record_keys accesses_of_slot
record_keys-counts [] d slot n h e = e ∙ ap pos (omega arith)
record_keys-counts ((key, address) ∷ log) d slot n h e =
    let hit : ℕ = if get_slot_for_key key == slot then 1 else 0 in
    record_keys-counts log (record_key d key address) slot (n + hit) (ground arith)
      (record_key-counts d key address slot n (omega arith) e)
    ∙ ap pos (omega arith)

record_keys-nodes :
    (log : List (Text × String)) (d : SlotDistribution) (node : String) (n : ℕ)
    → n + length log < int_limit
    → count_or_zero (get d.node_count node) ≡ pos n
    → count_or_zero (get (record_keys d log).node_count node) ≡ pos (n + accesses_of_node node log)
unfolding record_keys accesses_of_node
record_keys-nodes [] d node n h e = e ∙ ap pos (omega arith)
record_keys-nodes ((key, address) ∷ log) d node n h e =
    let hit : ℕ = if str_eq address node then 1 else 0 in
    record_keys-nodes log (record_key d key address) node (n + hit) (ground arith)
      (record_key-nodes d key address node n (omega arith) e)
    ∙ ap pos (omega arith)

record_keys-CountsUp :
    (log : List (Text × String)) (d : SlotDistribution) (n : ℕ)
    → n + length log < int_limit
    → CountsUp d.counts n
    → CountsUp (record_keys d log).counts (n + length log)
unfolding record_keys
record_keys-CountsUp [] d n h c = subst (CountsUp d.counts) (omega arith) c
record_keys-CountsUp ((key, address) ∷ log) d n h c = subst (CountsUp _) (omega arith) (
    record_keys-CountsUp log (record_key d key address) (n + 1) (omega arith)
      (unfold record_key in add_count-CountsUp d.counts (get_slot_for_key key) 1 n (omega arith) c))

-- After a list of fewer than 2^63 accesses to a new tracker, `TotalOps` is their number, the groups
-- of slots add up to it, and the count of each slot and of each node is how many of the accesses
-- hashed to the slot and went to the node.
pub distribution_counts :
    (log : List (Text × String))
    → length log < int_limit
    → let d = record_keys new_slot_distribution log in
      ((get_distribution_stats d).total_ops ≡ pos (length log))
      × CountsUp (get_distribution_stats d).slot_groups (length log)
      × ((slot : ℕ) → count_at d.counts slot ≡ pos (accesses_of_slot slot log))
      × ((node : String) → count_or_zero (get d.node_count node) ≡ pos (accesses_of_node node log))
unfolding get_distribution_stats new_slot_distribution
distribution_counts log h =
    let d = new_slot_distribution in
    let c = record_keys-CountsUp log d 0 (omega arith) refl in
    let m = (record_keys d log).counts in
    (
      sum_from-CountsUp m 0 (0 + length log) (omega arith) c ∙ ap pos (omega arith),
      subst (CountsUp _) (omega arith)
          (group_slots-CountsUp m [] 0 (0 + length log) (omega arith) refl c),
      λ slot.
          record_keys-counts log d slot 0 (omega arith) (unfold count_at in refl)
          ∙ ap pos (omega arith),
      λ node.
          record_keys-nodes log d node 0 (omega arith) (unfold get in refl) ∙ ap pos (omega arith),
    )
