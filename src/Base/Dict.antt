-- ===== src/Base/Dict.antt =====
-- Go's `map[string]V` as an association list. `put` writes an entry in place or adds it at the
-- end, `remove` drops every entry of the key, so the keys stay distinct. The order of the list is
-- one order in which Go's `range` may visit the map.
use Prim.Native.String.{String}
use mathlib.Core.Path.{◌≡◌, refl, subst}
use mathlib.Core.Logic.{◌⊎◌, inl, inr}
use mathlib.Core.Bool.{Bool, true, false}
use mathlib.Core.List.{List, [], ◌∷◌}
use mathlib.Core.Option.{Option, none, some}
use native.Mathlib.Omega.{arith}
use text.Mathlib.TextEquality.{eq_iff}
use redis_meter.Base.Tests.{str_eq, if◌then◌else◌, Bool-cases}

abbrev pub Dict {ℓ} : Type ℓ → Type ℓ
Dict V = List (String × V)

module _ {ℓ} {V : Type ℓ} where
  unfoldable pub get : Dict V → String → Option V
  get [] k = none
  get ((j, v) ∷ d) k = let rest = get d k in if str_eq j k then some v else rest

  unfoldable pub put : Dict V → String → V → Dict V
  put [] k v = (k, v) ∷ []
  put ((j, w) ∷ d) k v = let rest = put d k v in if str_eq j k then (k, v) ∷ d else (j, w) ∷ rest

  unfoldable pub remove : Dict V → String → Dict V
  remove [] k = []
  remove ((j, v) ∷ d) k = let rest = remove d k in if str_eq j k then rest else (j, v) ∷ rest

  abbrev pub is_some : Option V → Bool
  is_some none = false
  is_some (some v) = true

  pub get-put :
      (d : Dict V) (k j : String) (v : V)
      → get (put d k v) j ≡ (if str_eq k j then some v else get d j)
  unfolding get put
  get-put [] k j v = refl
  get-put ((i, w) ∷ d) k j v = ground (arith, eq_iff k j, eq_iff i k, eq_iff i j, get-put d k j v)

  pub get-remove :
      (d : Dict V) (k j : String) → get (remove d k) j ≡ (if str_eq k j then none else get d j)
  unfolding get remove
  get-remove [] k j = ground arith
  get-remove ((i, w) ∷ d) k j = ground (arith, eq_iff k j, eq_iff i k, eq_iff i j, get-remove d k j)

-- The key stands in the dictionary once at most.
module _ {ℓ} {V : Type ℓ} where
  abbrev pub HasDistinctKeys : Dict V → Type ℓ
  HasDistinctKeys [] = Unit
  HasDistinctKeys ((k, v) ∷ d) = (get d k ≡ none) × HasDistinctKeys d

  pub put-HasDistinctKeys :
      (d : Dict V) (k : String) (v : V) → HasDistinctKeys d → HasDistinctKeys (put d k v)
  unfolding get put
  put-HasDistinctKeys [] k v h = (refl, tt)
  put-HasDistinctKeys ((j, w) ∷ d) k v h =
      ground (arith, eq_iff j k, eq_iff k j, get-put d k j v, put-HasDistinctKeys d k v h.1)

  pub remove-HasDistinctKeys :
      (d : Dict V) (k : String) → HasDistinctKeys d → HasDistinctKeys (remove d k)
  unfolding get remove
  remove-HasDistinctKeys [] k h = tt
  remove-HasDistinctKeys ((j, w) ∷ d) k h =
      ground (arith, eq_iff j k, eq_iff k j, get-remove d k j, remove-HasDistinctKeys d k h.1)

pub ruleset dict_laws = (get-put, get-remove)

module _ {ℓ} {V : Type ℓ} where
  -- Each key with a value that passes the test is deleted, as a loop over the map does it.
  unfoldable pub drop_where : (V → Bool) → Dict V → Dict V
  drop_where p [] = []
  drop_where p ((k, v) ∷ d) = let rest = drop_where p d in if p v then rest else (k, v) ∷ rest

  -- The values that pass a test, in the order of the visit.
  unfoldable pub values_where : (V → Bool) → Dict V → List V
  values_where p [] = []
  values_where p ((k, v) ∷ d) = let rest = values_where p d in if p v then v ∷ rest else rest

  -- The first value that passes a test.
  unfoldable pub find_where : (V → Bool) → Dict V → Option V
  find_where p [] = none
  find_where p ((k, v) ∷ d) = let rest = find_where p d in if p v then some v else rest

  abbrev pub items : Option (List V) → List V
  items none = []
  items (some vs) = vs

-- `P` holds of each value.
module _ {ℓ κ} {V : Type ℓ} where
  abbrev pub EveryValue : (V → Type κ) → Dict V → Type κ
  EveryValue P [] = Unit
  EveryValue P ((k, v) ∷ d) = P v × EveryValue P d

  pub put-EveryValue :
      (P : V → Type κ) (d : Dict V) (k : String) (v : V)
      → P v
      → EveryValue P d
      → EveryValue P (put d k v)
  unfolding put
  put-EveryValue P [] k v p h = (p, tt)
  put-EveryValue P ((j, w) ∷ d) k v p h = elim (Bool-cases (str_eq j k)) [
    | inl e ↦ rw (e, put) (p, h.1)
    | inr e ↦ rw (e, put) (h.0, put-EveryValue P d k v p h.1)
  ]

  pub remove-EveryValue :
      (P : V → Type κ) (d : Dict V) (k : String) → EveryValue P d → EveryValue P (remove d k)
  unfolding remove
  remove-EveryValue P [] k h = tt
  remove-EveryValue P ((j, w) ∷ d) k h = elim (Bool-cases (str_eq j k)) [
    | inl e ↦ rw (e, remove) (remove-EveryValue P d k h.1)
    | inr e ↦ rw (e, remove) (h.0, remove-EveryValue P d k h.1)
  ]

  pub get-EveryValue :
      (P : V → Type κ) (d : Dict V) (k : String) (v : V) → EveryValue P d → get d k ≡ some v → P v
  unfolding get
  get-EveryValue P [] k v h e = absurd (ground (arith, e))
  get-EveryValue P ((j, w) ∷ d) k v h e = elim (Bool-cases (str_eq j k)) [
    | inl f ↦ subst P (ground (arith, e, f)) h.0
    | inr f ↦ get-EveryValue P d k v h.1 (ground (arith, e, f))
  ]

  -- What is left after a deletion by a test failed the test.
  pub drop_where-EveryValue :
      (P Q : V → Type κ) (p : V → Bool) (d : Dict V)
      → ((v : V) → p v ≡ false → P v → Q v)
      → EveryValue P d
      → EveryValue Q (drop_where p d)
  unfolding drop_where
  drop_where-EveryValue P Q p [] f h = tt
  drop_where-EveryValue P Q p ((j, w) ∷ d) f h = elim (Bool-cases (p w)) [
    | inl e ↦ rw (e, drop_where) (drop_where-EveryValue P Q p d f h.1)
    | inr e ↦ rw (e, drop_where) (f w e h.0, drop_where-EveryValue P Q p d f h.1)
  ]

  pub map-EveryValue :
      (P Q : V → Type κ) (d : Dict V) → ((v : V) → P v → Q v) → EveryValue P d → EveryValue Q d
  map-EveryValue P Q [] f h = tt
  map-EveryValue P Q ((j, w) ∷ d) f h = (f w h.0, map-EveryValue P Q d f h.1)

-- Where a value comes from that is found after a write; after a deletion.
module _ {ℓ} {V : Type ℓ} where
  pub found_in_put :
      (d : Dict V) (k j : String) (v w : V)
      → get (put d k v) j ≡ some w
      → ((k ≡ j) × (v ≡ w)) ⊎ (get d j ≡ some w)
  found_in_put d k j v w e = elim (Bool-cases (str_eq k j)) [
    | inl f ↦ inl ((eq_iff k j).0 f, ground (arith, e, f, get-put d k j v))
    | inr f ↦ inr (ground (arith, e, f, get-put d k j v))
  ]

  pub found_in_remove :
      (d : Dict V) (k j : String) (w : V) → get (remove d k) j ≡ some w → get d j ≡ some w
  found_in_remove d k j w e = ground (arith, e, get-remove d k j)
