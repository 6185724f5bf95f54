-- ===== src/Cluster/Analyzer/Full.antt =====
-- `ClusterOK` of internal/cluster/cluster.go, as `CLUSTER NODES` tells it, and `GetNodeForSlot`.
use redis_meter.Base.{
  ℕ, zero, suc, ◌+◌, ◌-◌, ◌<◌, ◌≤◌, ◌≡◌, refl, ap, ◌∙◌, sym, true, Bool-cases, Option-cases, inl,
  inr, ◌↔◌, none, some, List, [], ◌∷◌, leb, leb→le, any, All, arith,
}
use redis_meter.Base.Int.{ℤ, pos, negsuc, pos_part, neg_part, add-pos}
use redis_meter.Base.Text.{Text, split, trim_space}
use redis_meter.Cluster.Topology.{SlotRange, NodeInfo, ClusterTopology, is_master, parse_node_line}
use redis_meter.Cluster.Topology.Nonnegative.{IsNonnegative, parse_node_line-IsNonnegative}
use redis_meter.Cluster.Analyzer.{
  Seen, has_slot, add_slot, cover, slot_count, cover_ranges, see_node, see_line, see_lines,
  nothing_seen, read_nodes, owns, find_owner, Owner, owner_or, get_node_for_slot,
}
use redis_meter.Cluster.Analyzer.Coverage.{
  IsBounded, HasBoundedSlots, AllBounded, Agrees, range, see_lines-bounded, see_lines-Agrees,
  All-append,
}
use redis_meter.Cluster.Analyzer.Counting.{IsSlotSet, full_has_slot, has_all_full}

add_slot-IsSlotSet :
    (n a : ℕ) (s : List ℤ) → a < n → IsSlotSet n s → IsSlotSet n (add_slot (pos a) s)
unfolding add_slot
add_slot-IsSlotSet n a s h d = elim (Bool-cases (has_slot (pos a) s)) [
  | inl e ↦ rw e d
  | inr e ↦ rw e (e, refl, h, d)
]

cover-IsSlotSet :
    (n a : ℕ) (s : List ℤ) → n + a ≤ 16384 → IsSlotSet 16384 s → IsSlotSet 16384 (cover n (pos a) s)
unfolding cover
cover-IsSlotSet zero a s h d = d
cover-IsSlotSet (suc n) a s h d = rw (add-pos a 1 (omega arith)) (
    cover-IsSlotSet n (a + 1) (add_slot (pos a) s) (omega arith)
      (add_slot-IsSlotSet 16384 a s (omega arith) d))

range-IsSlotSet :
    (st en : ℤ) (s : List ℤ)
    → neg_part st ≡ 0
    → neg_part en ≡ 0
    → pos_part en < 16384
    → IsSlotSet 16384 s
    → IsSlotSet 16384 (cover (slot_count (range st en)) st s)
range-IsSlotSet (pos a) (pos b) s p q h d = elim (Bool-cases (leb (a + 0) (b + 0))) [
  | inl e ↦
      rw e
        (cover-IsSlotSet (suc ((b + 0) - (a + 0))) a s (omega (arith, leb→le (a + 0) (b + 0) e)) d)
  | inr e ↦ rw e (unfold cover in d)
]
range-IsSlotSet (negsuc a) en s p q h d = absurd (omega arith)
range-IsSlotSet (pos a) (negsuc b) s p q h d = absurd (omega arith)

cover_ranges-IsSlotSet :
    (rs : List SlotRange) (s : List ℤ)
    → All IsNonnegative rs
    → All IsBounded rs
    → IsSlotSet 16384 s
    → IsSlotSet 16384 (cover_ranges rs s)
unfolding cover_ranges
cover_ranges-IsSlotSet [] s q h d = d
cover_ranges-IsSlotSet (r ∷ rs) s q h d =
    cover_ranges-IsSlotSet rs (cover (slot_count r) r.start s) q.1 h.1
      (range-IsSlotSet r.start r.end s q.0.start q.0.end h.0 d)

see_node-IsSlotSet :
    (seen : Seen) (n : NodeInfo)
    → All IsNonnegative n.slots
    → AllBounded (see_node seen n)
    → IsSlotSet 16384 seen.covered
    → IsSlotSet 16384 (see_node seen n).covered
unfolding see_node
see_node-IsSlotSet seen n q h d = elim (Bool-cases (is_master n)) [
  | inl e ↦
      let b = (All-append HasBoundedSlots seen.masters (n ∷ []) (rw e at h)).1.0 in
      rw e (cover_ranges-IsSlotSet n.slots seen.covered q b d)
  | inr e ↦ rw e d
]

see_lines-IsSlotSet :
    (lines : List Text) (seen : Seen)
    → AllBounded (see_lines lines seen)
    → IsSlotSet 16384 seen.covered
    → IsSlotSet 16384 (see_lines lines seen).covered
unfolding see_lines
see_lines-IsSlotSet [] seen h d = d
see_lines-IsSlotSet (line ∷ lines) seen h d = elim (Option-cases (parse_node_line line)) [
  | inl e ↦
      rw (e, see_lines, see_line)
        (see_lines-IsSlotSet lines seen (rw (e, see_lines, see_line) at h) d)
  | inr (n, e) ↦
      let bounded = rw (e, see_lines, see_line) at h in
      rw (e, see_lines, see_line)
        (see_lines-IsSlotSet lines (see_node seen n) bounded (
          see_node-IsSlotSet seen n (parse_node_line-IsNonnegative line n e)
            (see_lines-bounded lines (see_node seen n) bounded) d))
]

-- Some master owns the slot just if the search finds one, which owns it.
abbrev IsFound : ℤ → List NodeInfo → Type 0
IsFound slot ms = (n : NodeInfo) × (find_owner slot ms ≡ some n) × (owns slot n ≡ true)

find_owner-IsFound : (slot : ℤ) (ms : List NodeInfo) → any (owns slot) ms ≡ true → IsFound slot ms
unfolding find_owner any
find_owner-IsFound slot [] h = cc
find_owner-IsFound slot (m ∷ ms) h = elim (Bool-cases (owns slot m)) [
  | inl e ↦ (m, rw e, e)
  | inr e ↦ let (n, f, o) = find_owner-IsFound slot ms (rw e at h) in (n, rw e f, o)
]

any_of_found :
    (slot : ℤ) (ms : List NodeInfo) (n : NodeInfo)
    → find_owner slot ms ≡ some n
    → any (owns slot) ms ≡ true
unfolding find_owner any
any_of_found slot [] n h = cc
any_of_found slot (m ∷ ms) n h = elim (Bool-cases (owns slot m)) [
  | inl e ↦ rw e
  | inr e ↦ rw e (any_of_found slot ms n (rw e at h))
]

-- `GetNodeForSlot` answers with a master that has the slot in one of its ranges.
abbrev pub HasOwner : ClusterTopology → ℕ → Type 0
HasOwner t x =
    (n : NodeInfo) × (get_node_for_slot (some t) (pos x) ≡ Owner.node n) × (owns (pos x) n ≡ true)

owner_of_slot : (t : ClusterTopology) (x : ℕ) → any (owns (pos x)) t.masters ≡ true → HasOwner t x
unfolding get_node_for_slot
owner_of_slot t x h =
    let (n, f, o) = find_owner-IsFound (pos x) t.masters h in (n, ap owner_or f, o)

slot_of_owner : (t : ClusterTopology) (x : ℕ) → HasOwner t x → any (owns (pos x)) t.masters ≡ true
unfolding get_node_for_slot
slot_of_owner t x (n, f, o) = elim (Option-cases (find_owner (pos x) t.masters)) [
  | inl e ↦ absurd (unowned (rw e at f))
  | inr (m, e) ↦ any_of_found (pos x) t.masters m e
]
  where
    unowned : owner_or none ≡ Owner.node n → ⊥
    unowned e = cc

-- By the reply to `CLUSTER NODES`, the cluster is OK just if `GetNodeForSlot` finds, for each of the
-- 16384 slots, a master that owns it, where no range of a master ends above slot 16383.
pub cluster_ok_iff_owned :
    (reply : Text)
    → All HasBoundedSlots (read_nodes reply).masters
    → ((read_nodes reply).cluster_ok ≡ true) ↔ ((x : ℕ) → x < 16384 → HasOwner (read_nodes reply) x)
unfolding read_nodes
cluster_ok_iff_owned reply h =
    let lines = split 10 (trim_space reply) in
    let seen = see_lines lines nothing_seen in
    let agrees : Agrees seen =
      see_lines-Agrees lines nothing_seen h (λ x. unfold has_slot any in refl) in
    let slots : IsSlotSet 16384 seen.covered = see_lines-IsSlotSet lines nothing_seen h tt in
    (
      λ ok x b.
          owner_of_slot (read_nodes reply) x
            (sym (agrees x) ∙ full_has_slot 16384 x seen.covered slots (ground (arith, ok)) b),
      λ owned.
          let full =
            has_all_full 16384 seen.covered slots
              (λ x b. agrees x ∙ slot_of_owner (read_nodes reply) x (owned x b)) in
          ground (arith, full),
    )
