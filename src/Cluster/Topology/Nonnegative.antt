-- ===== src/Cluster/Topology/Nonnegative.antt =====
-- The bounds of the ranges that `parseSlotRange` of internal/cluster/cluster.go reads.
use redis_meter.Base.{
  ℕ, ◌+◌, ◌-◌, ◌*◌, ◌≡◌, refl, ◌≢◌, Bool, true, false, Bool-cases, Option-cases, inl, inr, Option,
  none, some, List, [], ◌∷◌, ◌==◌, All, arith,
}
use mathlib.Core.Path.{subst}
use redis_meter.Base.Int.{ℤ, neg_part}
use redis_meter.Base.Text.{
  Text, codes, split, before_first, contains, atoi, digits, digits_value, positive, has_prefix,
  text_eq, fields,
}
use redis_meter.Cluster.Topology.{
  SlotRange, NodeInfo, one_slot, two_slots, parse_slot_range, parse_slots, parse_node,
  parse_node_line, role_from, or_unknown,
}

abbrev HasNoDash : Text → Type 0
HasNoDash s = contains b'-' s ≡ false

positive_lem : (o : Option ℕ) → neg_part (positive o).0 ≡ 0
positive_lem none = refl
positive_lem (some n) = ground arith

atoi-positive : (s : Text) → HasNoDash s → neg_part (atoi s).0 ≡ 0
unfolding atoi contains
atoi-positive [] h = refl
atoi-positive (c ∷ s) h = ground (arith, positive_lem (digits s), positive_lem (digits (c ∷ s)))

before_first-no_dash :
    (c : ℕ) (ts : List Text)
    → (c == b'-') ≡ false
    → All HasNoDash ts
    → All HasNoDash (before_first c ts)
unfolding contains
before_first-no_dash c [] h a = (rw h, tt)
before_first-no_dash c (t ∷ ts) h a = (rw h a.0, a.1)

split-no_dash : (s : Text) → All HasNoDash (split b'-' s)
unfolding split
split-no_dash [] = (unfold contains in refl, tt)
split-no_dash (c ∷ s) = elim (Bool-cases (c == b'-')) [
  | inl e ↦ rw e (unfold contains in refl, split-no_dash s)
  | inr e ↦ rw e (before_first-no_dash c (split b'-' s) e (split-no_dash s))
]

-- The range does not begin or end below 0.
pub record IsNonnegative (r : SlotRange) : Type 0 where
  pub start : neg_part r.start ≡ 0
  pub end : neg_part r.end ≡ 0

abbrev HoldsOf : (SlotRange → Type 0) → Option SlotRange → Type 0
HoldsOf P none = Unit
HoldsOf P (some r) = P r

one_slot-IsNonnegative :
    (z : ℤ) (b : Bool) → neg_part z ≡ 0 → HoldsOf IsNonnegative (one_slot (z, b))
one_slot-IsNonnegative z true h = record { start = h; end = h }
one_slot-IsNonnegative z false h = tt

two_slots-IsNonnegative : (ts : List Text) → All HasNoDash ts → HoldsOf IsNonnegative (two_slots ts)
two_slots-IsNonnegative [] a = tt
two_slots-IsNonnegative (s ∷ []) a = tt
two_slots-IsNonnegative (s ∷ t ∷ []) a = record {
  start = atoi-positive s a.0;
  end = atoi-positive t a.1.0;
}
two_slots-IsNonnegative (s ∷ t ∷ u ∷ ts) a = tt

digits_value-dash : (n : ℕ) (s : Text) → contains b'-' s ≡ true → digits_value n s ≡ none
unfolding digits_value contains
digits_value-dash n [] h = cc
digits_value-dash n (c ∷ s) h = ground (arith, digits_value-dash (n * 10 + (c - 48)) s)

digits-dash : (s : Text) → contains b'-' s ≡ true → digits s ≡ none
digits-dash [] h = refl
digits-dash (c ∷ s) h = digits_value-dash 0 (c ∷ s) h

split-whole : (s : Text) → HasNoDash s → split b'-' s ≡ s ∷ []
unfolding split contains
split-whole [] h = refl
split-whole (c ∷ s) h = ground (arith, split-whole s)

-- With a dash that is the first byte, the text splits in two.
split_dash :
    (c : ℕ) (s : Text)
    → HasNoDash s
    → contains b'-' (c ∷ s) ≡ true
    → two_slots (split b'-' (c ∷ s)) ≢ none
unfolding split contains
split_dash c s d h e = ground (arith, split-whole s d)

-- A text with a dash that is not two texts around one is no number.
atoi-dash :
    (s : Text) → contains b'-' s ≡ true → two_slots (split b'-' s) ≡ none → one_slot (atoi s) ≡ none
unfolding atoi
atoi-dash [] h e = refl
atoi-dash (c ∷ s) h e = elim (Bool-cases (contains b'-' s)) [
  | inl d ↦ ground (arith, digits-dash s d, digits-dash (c ∷ s) h)
  | inr d ↦ absurd (split_dash c s d h e)
]

-- No range that is read begins or ends below 0.
pub parse_slot_range-IsNonnegative :
    (s : Text) (r : SlotRange) → parse_slot_range s ≡ some r → IsNonnegative r
unfolding parse_slot_range
parse_slot_range-IsNonnegative s r h = subst (HoldsOf IsNonnegative) h (read s)
  where
    read : (t : Text) → HoldsOf IsNonnegative (parse_slot_range t)
    read t = elim (Bool-cases (contains b'-' t)) [
      | inl d ↦ elim (Option-cases (two_slots (split b'-' t))) [
        | inl e ↦ rw (d, e, atoi-dash t d e, parse_slot_range) tt
        | inr (q, e) ↦
            rw (d, e, parse_slot_range)
              (rw e at (two_slots-IsNonnegative (split b'-' t) (split-no_dash t)))
      ]
      | inr d ↦
          rw (d, parse_slot_range)
            (one_slot-IsNonnegative (atoi t).0 (atoi t).1 (atoi-positive t d))
    ]

parse_slots-IsNonnegative : (ss : List Text) → All IsNonnegative (parse_slots ss)
unfolding parse_slots
parse_slots-IsNonnegative [] = tt
parse_slots-IsNonnegative (s ∷ ss) = elim (Bool-cases (has_prefix b'[' s)) [
  | inl e ↦ rw e (parse_slots-IsNonnegative ss)
  | inr e ↦ elim (Option-cases (parse_slot_range s)) [
    | inl n ↦ rw (e, n) (parse_slots-IsNonnegative ss)
    | inr (r, q) ↦ rw (e, q) (parse_slot_range-IsNonnegative s r q, parse_slots-IsNonnegative ss)
  ]
]

abbrev SlotsOf : Option NodeInfo → Type 0
SlotsOf none = Unit
SlotsOf (some n) = All IsNonnegative n.slots

parse_node-IsNonnegative : (parts : List Text) → SlotsOf (parse_node parts)
unfolding parse_node
parse_node-IsNonnegative [] = tt
parse_node-IsNonnegative (a ∷ []) = tt
parse_node-IsNonnegative (a ∷ b ∷ []) = tt
parse_node-IsNonnegative (a ∷ b ∷ c ∷ []) = tt
parse_node-IsNonnegative (a ∷ b ∷ c ∷ d ∷ []) = tt
parse_node-IsNonnegative (a ∷ b ∷ c ∷ d ∷ e ∷ []) = tt
parse_node-IsNonnegative (a ∷ b ∷ c ∷ d ∷ e ∷ f ∷ []) = tt
parse_node-IsNonnegative (a ∷ b ∷ c ∷ d ∷ e ∷ f ∷ g ∷ []) = tt
parse_node-IsNonnegative (a ∷ b ∷ c ∷ d ∷ e ∷ f ∷ g ∷ h ∷ slot_texts) =
    let role = or_unknown (role_from (split b',' c) []) in
    elim (Bool-cases (text_eq role (codes "master"))) [
      | inl q ↦ rw q (parse_slots-IsNonnegative slot_texts)
      | inr q ↦ rw q tt
    ]

pub parse_node_line-IsNonnegative :
    (line : Text) (n : NodeInfo) → parse_node_line line ≡ some n → All IsNonnegative n.slots
unfolding parse_node_line
parse_node_line-IsNonnegative line n h = subst SlotsOf h (parse_node-IsNonnegative (fields line))
