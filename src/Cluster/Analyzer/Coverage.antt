-- ===== src/Cluster/Analyzer/Coverage.antt =====
-- The slots that `GetTopology` of internal/cluster/cluster.go counts, and the ranges that
-- `GetNodeForSlot` searches.
use redis_meter.Base.{
  ℕ, zero, suc, ◌+◌, ◌-◌, ◌<◌, ◌≡◌, refl, Bool, Bool-cases, Option-cases, inl, inr, ◌&&◌, ◌||◌,
  List, [], ◌∷◌, ◌++◌, ltb, leb, leb→le, ◌==◌, any, All, arith,
}
use redis_meter.Base.Int.{ℤ, pos, negsuc, pos_part, neg_part, add-pos, int_limit}
use redis_meter.Base.Text.{Text}
use redis_meter.Cluster.Topology.{SlotRange, NodeInfo, is_master, parse_node_line}
use redis_meter.Cluster.Topology.Nonnegative.{IsNonnegative, parse_node_line-IsNonnegative}
use redis_meter.Cluster.Analyzer.{
  has_slot, add_slot, cover, slot_count, cover_ranges, Seen, see_node, see_line, see_lines,
  in_slot_range, owns,
}

has_slot-add_slot :
    (x y : ℕ) (s : List ℤ) → has_slot (pos x) (add_slot (pos y) s) ≡ (x == y) || has_slot (pos x) s
unfolding add_slot has_slot any
has_slot-add_slot x y s = ground arith

has_slot-cover :
    (n a x : ℕ) (s : List ℤ)
    → n + a < int_limit
    → has_slot (pos x) (cover n (pos a) s) ≡ (leb a x && ltb x (n + a)) || has_slot (pos x) s
unfolding cover
has_slot-cover zero a x s h = ground arith
has_slot-cover (suc n) a x s h = ground (
  arith,
  add-pos a 1 (omega arith),
  has_slot-cover n (a + 1) x (add_slot (pos a) s) (omega arith),
  has_slot-add_slot x a s,
)

abbrev pub range : ℤ → ℤ → SlotRange
range a b = record { start = a; end = b }

range-cover :
    (st en : ℤ) (x : ℕ) (s : List ℤ)
    → neg_part st ≡ 0
    → neg_part en ≡ 0
    → pos_part en < 16384
    → has_slot (pos x) (cover (slot_count (range st en)) st s)
      ≡ in_slot_range (pos x) (range st en) || has_slot (pos x) s
unfolding cover
range-cover (pos a) (pos b) x s p q h = elim (Bool-cases (leb a b)) [
  | inl e ↦ ground (arith, has_slot-cover (suc (b - a)) a x s (omega (arith, leb→le a b e)))
  | inr e ↦ ground arith
]
range-cover (negsuc a) en x s p q h = absurd (omega arith)
range-cover (pos a) (negsuc b) x s p q h = absurd (omega arith)

-- A range ends below 16384, as each range of a cluster does.
abbrev pub IsBounded : SlotRange → Type 0
IsBounded r = pos_part r.end < 16384

abbrev pub HasBoundedSlots : NodeInfo → Type 0
HasBoundedSlots n = All IsBounded n.slots

has_slot-cover_ranges :
    (rs : List SlotRange) (x : ℕ) (s : List ℤ)
    → All IsNonnegative rs
    → All IsBounded rs
    → has_slot (pos x) (cover_ranges rs s) ≡ any (in_slot_range (pos x)) rs || has_slot (pos x) s
unfolding cover_ranges any
has_slot-cover_ranges [] x s q h = refl
has_slot-cover_ranges (r ∷ rs) x s q h = ground (
  arith,
  has_slot-cover_ranges rs x (cover (slot_count r) r.start s) q.1 h.1,
  range-cover r.start r.end x s q.0.start q.0.end h.0,
)

any-append {ℓ} :
    {A : Type ℓ} (p : A → Bool) (xs ys : List A) → any p (xs ++ ys) ≡ any p xs || any p ys
unfolding any
any-append p [] ys = refl
any-append p (x ∷ xs) ys = ground (arith, any-append p xs ys)

pub All-append {ℓ} :
    {A : Type ℓ} (P : A → Type 0) (xs ys : List A) → All P (xs ++ ys) → All P xs × All P ys
All-append P [] ys a = (tt, a)
All-append P (x ∷ xs) ys a = let (b, c) = All-append P xs ys a.1 in ((a.0, b), c)

-- The covered slots are those that some master owns.
abbrev pub Agrees : Seen → Type 0
Agrees seen = (x : ℕ) → has_slot (pos x) seen.covered ≡ any (owns (pos x)) seen.masters

abbrev pub AllBounded : Seen → Type 0
AllBounded seen = All HasBoundedSlots seen.masters

pub see_node-bounded : (seen : Seen) (n : NodeInfo) → AllBounded (see_node seen n) → AllBounded seen
unfolding see_node
see_node-bounded seen n h = elim (Bool-cases (is_master n)) [
  | inl e ↦ (All-append HasBoundedSlots seen.masters (n ∷ []) (rw e at h)).0
  | inr e ↦ rw e at h
]

see_node-Agrees :
    (seen : Seen) (n : NodeInfo)
    → All IsNonnegative n.slots
    → AllBounded (see_node seen n)
    → Agrees seen
    → Agrees (see_node seen n)
unfolding see_node
see_node-Agrees seen n q h a x = elim (Bool-cases (is_master n)) [
  | inl e ↦
      let b = (All-append HasBoundedSlots seen.masters (n ∷ []) (rw e at h)).1.0 in
      let one : owns (pos x) n ≡ any (in_slot_range (pos x)) n.slots = unfold owns in refl in
      let last : any (owns (pos x)) (n ∷ []) ≡ owns (pos x) n = unfold any in ground arith in
      rw
        (
          e,
          has_slot-cover_ranges n.slots x seen.covered q b,
          any-append (owns (pos x)) seen.masters (n ∷ []),
          a x,
          last,
          one,
        )
        (ground arith)
  | inr e ↦ rw e (a x)
]

pub see_lines-bounded :
    (lines : List Text) (seen : Seen) → AllBounded (see_lines lines seen) → AllBounded seen
unfolding see_lines
see_lines-bounded [] seen h = h
see_lines-bounded (line ∷ lines) seen h = elim (Option-cases (parse_node_line line)) [
  | inl e ↦ see_lines-bounded lines seen (rw (e, see_lines, see_line) at h)
  | inr (n, e) ↦
      see_node-bounded seen n
        (see_lines-bounded lines (see_node seen n) (rw (e, see_lines, see_line) at h))
]

pub see_lines-Agrees :
    (lines : List Text) (seen : Seen)
    → AllBounded (see_lines lines seen)
    → Agrees seen
    → Agrees (see_lines lines seen)
unfolding see_lines
see_lines-Agrees [] seen h a = a
see_lines-Agrees (line ∷ lines) seen h a = elim (Option-cases (parse_node_line line)) [
  | inl e ↦
      rw (e, see_lines, see_line) (see_lines-Agrees lines seen (rw (e, see_lines, see_line) at h) a)
  | inr (n, e) ↦
      let bounded = rw (e, see_lines, see_line) at h in
      rw (e, see_lines, see_line)
        (see_lines-Agrees lines (see_node seen n) bounded (
          see_node-Agrees seen n (parse_node_line-IsNonnegative line n e)
            (see_lines-bounded lines (see_node seen n) bounded) a))
]
