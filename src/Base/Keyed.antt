-- ===== src/Base/Keyed.antt =====
-- A map that holds each value under the value's own key.
use Prim.Native.String.{String}
use mathlib.Core.Path.{◌≡◌, refl, sym, ap, subst, ◌∙◌}
use mathlib.Core.Logic.{◌≢◌, inl, inr}
use mathlib.Core.Bool.{Bool}
use mathlib.Core.List.{[], ◌∷◌}
use mathlib.Core.Option.{none, some}
use native.Mathlib.Omega.{arith}
use text.Mathlib.TextEquality.{eq_iff}
use redis_meter.Base.Tests.{str_eq, Bool-cases}
use redis_meter.Base.Dict.{Dict, get, put, get-put, find_where, EveryValue, map-EveryValue}

module _ {ℓ} {V : Type ℓ} (key : V → String) where
  abbrev pub IsKeyed : Dict V → Type ℓ
  IsKeyed [] = Unit
  IsKeyed ((k, v) ∷ d) = (key v ≡ k) × (get d k ≡ none) × IsKeyed d

  pub put-IsKeyed : (d : Dict V) (k : String) (v : V) → key v ≡ k → IsKeyed d → IsKeyed (put d k v)
  unfolding get put
  put-IsKeyed [] k v e h = (e, refl, tt)
  put-IsKeyed ((j, w) ∷ d) k v e (a, b, h) = elim (Bool-cases (str_eq j k)) [
    | inl f ↦ rw (f, put) (e, subst (λ x. get d x ≡ none) ((eq_iff j k).0 f) b, h)
    | inr f ↦
        rw (f, put)
          (a, ground (arith, f, b, eq_iff k j, eq_iff j k, get-put d k j v), put-IsKeyed d k v e h)
  ]

  -- What a search finds stands under its own key.
  pub find_where-IsKeyed :
      (p : V → Bool) (d : Dict V) (v : V)
      → IsKeyed d
      → find_where p d ≡ some v
      → get d (key v) ≡ some v
  unfolding get find_where
  find_where-IsKeyed p [] v h e = absurd (ground (arith, e))
  find_where-IsKeyed p ((j, w) ∷ d) v (a, b, h) e = elim (Bool-cases (p w)) [
    | inl f ↦
        let x : w ≡ v = ground (arith, e, f) in
        subst (λ u. get ((j, w) ∷ d) (key u) ≡ some u) x (ground (arith, a, eq_iff j (key w)))
    | inr f ↦
        let x : get d (key v) ≡ some v = find_where-IsKeyed p d v h (ground (arith, e, f)) in
        elim (Bool-cases (str_eq j (key v))) [
          | inl g ↦ absurd (ground (arith, b, sym (ap (get d) ((eq_iff j (key v)).0 g)) ∙ b, x))
          | inr g ↦ rw (g, get) x
        ]
  ]

  absent-IsKeyed :
      (d : Dict V) (k : String) → IsKeyed d → get d k ≡ none → EveryValue (λ v. key v ≢ k) d
  unfolding get
  absent-IsKeyed [] k h e = tt
  absent-IsKeyed ((j, w) ∷ d) k (a, b, h) e = elim (Bool-cases (str_eq j k)) [
    | inl f ↦ absurd (ground (arith, e, f))
    | inr f ↦ (
      λ g. absurd (ground (arith, f, a, g, eq_iff j k)),
      absent-IsKeyed d k h (ground (arith, e, f)),
    )
  ]

  -- Of a write at a key that is there, only the new value has the key.
  pub put-EveryValue_keyed :
      (Q : V → Type 0) (d : Dict V) (k : String) (v w : V)
      → IsKeyed d
      → get d k ≡ some v
      → Q w
      → EveryValue (λ x. key x ≡ k → Q x) (put d k w)
  unfolding get put
  put-EveryValue_keyed Q [] k v w h e q = absurd (ground (arith, e))
  put-EveryValue_keyed Q ((j, u) ∷ d) k v w (a, b, h) e q = elim (Bool-cases (str_eq j k)) [
    | inl f ↦
        rw (f, put)
          (
            λ _. q,
            map-EveryValue (λ x. key x ≢ k) (λ x. key x ≡ k → Q x) d (λ x n g. absurd (n g))
                (absent-IsKeyed d k h (subst (λ x. get d x ≡ none) ((eq_iff j k).0 f) b)),
          )
    | inr f ↦
        rw (f, put)
          (
            λ g. absurd (ground (arith, f, a, g, eq_iff j k)),
            put-EveryValue_keyed Q d k v w h (ground (arith, e, f)) q,
          )
  ]
