-- ===== src/Cicd/Gates/Tables.antt =====
-- The metrics and the relations that a check of internal/cicd/gates.go may name, as tables, and that
-- `getActualValue` and `compareValue` answer what the tables say.
use redis_meter.Base.{
  Bool, true, false, not, ◌||◌, Option, none, some, [], ◌∷◌, String, str_eq, ◌≡◌, ◌↔◌, refl, sym,
  ap, ◌∙◌, if◌then◌else◌, Bool-cases, inl, inr, arith, eq_iff,
}
use redis_meter.Base.Dict.{Dict, get}
use redis_meter.Analysis.Model.{Arithmetic, SummaryMetrics}
use redis_meter.Cicd.Gates.{one_of, actual_value, compare_value}

turned : (a b : String) → str_eq a b ≡ str_eq b a
turned a b = ground (arith, eq_iff a b, eq_iff b a)

-- Two names with one value, in front of a table.
get-pair {ℓ} :
    {A : Type ℓ} (s a b : String) (x : A) (o : Option A) (rest : Dict A)
    → o ≡ get rest s
    → (if one_of s a b then some x else o) ≡ get ((a, x) ∷ (b, x) ∷ rest) s
unfolding get
get-pair s a b x o rest h = elim (Bool-cases (str_eq a s)) [
  | inl e ↦ rw (turned s a, e) refl
  | inr e ↦ elim (Bool-cases (str_eq b s)) [
    | inl f ↦ rw (turned s a, turned s b, e, f) refl
    | inr f ↦ rw (turned s a, turned s b, e, f) h
  ]
]

get-one {ℓ} :
    {A : Type ℓ} (s a : String) (x : A) (o : Option A) (rest : Dict A)
    → o ≡ get rest s
    → (if str_eq s a then some x else o) ≡ get ((a, x) ∷ rest) s
unfolding get
get-one s a x o rest h = elim (Bool-cases (str_eq a s)) [
  | inl e ↦ rw (turned s a, e) refl
  | inr e ↦ rw (turned s a, e) h
]

-- What a relation's answer says; a relation that is not there does not hold.
abbrev holds : Option Bool → Bool
holds none = false
holds (some b) = b

holds-pair :
    (s a b : String) (x o : Bool) (rest : Dict Bool)
    → o ≡ holds (get rest s)
    → (if one_of s a b then x else o) ≡ holds (get ((a, x) ∷ (b, x) ∷ rest) s)
unfolding get
holds-pair s a b x o rest h = elim (Bool-cases (str_eq a s)) [
  | inl e ↦ rw (turned s a, e) refl
  | inr e ↦ elim (Bool-cases (str_eq b s)) [
    | inl f ↦ rw (turned s a, turned s b, e, f) refl
    | inr f ↦ rw (turned s a, turned s b, e, f) h
  ]
]

holds_iff : (o : Option Bool) → (holds o ≡ true) ↔ (o ≡ some true)
holds_iff none = (λ e. absurd (ground (arith, e)), λ e. absurd (ground (arith, e)))
holds_iff (some b) = (λ e. ap (λ c. some c) e, λ e. ground (arith, e))

module _ (F : Arithmetic) where
  -- Each metric by its two names, and the two that have one.
  unfoldable pub metrics : SummaryMetrics F → Dict F.Float
  metrics s =
      ("throughput", s.ops_per_second)
      ∷ ("ops_per_second", s.ops_per_second)
      ∷ ("avg_latency", s.avg_latency_ms)
      ∷ ("avg_latency_ms", s.avg_latency_ms)
      ∷ ("p50_latency", s.p50_latency_ms)
      ∷ ("p50_latency_ms", s.p50_latency_ms)
      ∷ ("p90_latency", s.p90_latency_ms)
      ∷ ("p90_latency_ms", s.p90_latency_ms)
      ∷ ("p95_latency", s.p95_latency_ms)
      ∷ ("p95_latency_ms", s.p95_latency_ms)
      ∷ ("p99_latency", s.p99_latency_ms)
      ∷ ("p99_latency_ms", s.p99_latency_ms)
      ∷ ("error_rate", s.error_rate)
      ∷ ("errors", F.of_int s.errors)
      ∷ []

  -- Whether a value stands in each relation to a threshold.
  unfoldable pub relations : F.Float → F.Float → Dict Bool
  relations v threshold =
      ("gt", F.less threshold v)
      ∷ (">", F.less threshold v)
      ∷ ("lt", F.less v threshold)
      ∷ ("<", F.less v threshold)
      ∷ ("gte", F.less threshold v || F.equal v threshold)
      ∷ (">=", F.less threshold v || F.equal v threshold)
      ∷ ("lte", F.less v threshold || F.equal v threshold)
      ∷ ("<=", F.less v threshold || F.equal v threshold)
      ∷ ("eq", F.equal v threshold)
      ∷ ("==", F.equal v threshold)
      ∷ ("neq", not (F.equal v threshold))
      ∷ ("!=", not (F.equal v threshold))
      ∷ []

  pub actual_value_lem :
      (s : SummaryMetrics F) (m : String) → actual_value F s m ≡ get (metrics s) m
  unfolding actual_value metrics
  actual_value_lem s m = get-pair m "throughput" "ops_per_second" s.ops_per_second _ _ (
      get-pair m "avg_latency" "avg_latency_ms" s.avg_latency_ms _ _ (
        get-pair m "p50_latency" "p50_latency_ms" s.p50_latency_ms _ _ (
          get-pair m "p90_latency" "p90_latency_ms" s.p90_latency_ms _ _ (
            get-pair m "p95_latency" "p95_latency_ms" s.p95_latency_ms _ _ (
              get-pair m "p99_latency" "p99_latency_ms" s.p99_latency_ms _ _ (
                get-one m "error_rate" s.error_rate _ _
                  (get-one m "errors" (F.of_int s.errors) none [] (unfold get in refl))))))))

  compare_value-holds :
      (v t : F.Float) (op : String) → compare_value F v op t ≡ holds (get (relations v t) op)
  unfolding compare_value relations
  compare_value-holds v t op = holds-pair op "gt" ">" (F.less t v) _ _ (
      holds-pair op "lt" "<" (F.less v t) _ _ (
        holds-pair op "gte" ">=" (F.less t v || F.equal v t) _ _ (
          holds-pair op "lte" "<=" (F.less v t || F.equal v t) _ _ (
            holds-pair op "eq" "==" (F.equal v t) _ _
              (holds-pair op "neq" "!=" (not (F.equal v t)) false [] (unfold get in refl))))))

  pub compare_value_lem :
      (v t : F.Float) (op : String)
      → (compare_value F v op t ≡ true) ↔ (get (relations v t) op ≡ some true)
  compare_value_lem v t op =
      let both = holds_iff (get (relations v t) op) in
      (
        λ e. both.0 (sym (compare_value-holds v t op) ∙ e),
        λ e. compare_value-holds v t op ∙ both.1 e,
      )
