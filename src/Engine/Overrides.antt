-- ===== src/Engine/Overrides.antt =====
-- What the settings of a run in internal/engine/engine.go come from.
use redis_meter.Base.{
  false, not, ◌&&◌, String, str_eq, ◌==◌, ◌≡◌, refl, ap, ◌∙◌, arith, inl, inr, Bool-cases,
  if◌then◌else◌,
}
use redis_meter.Base.Int.{ℤ, pos, negsuc, int_lt}
use redis_meter.Domain.{Workload}
use redis_meter.Engine.Profiles.{RunConfig, override, first_profile, build_run_profile}
use redis_meter.Engine.Run.{legacy, with_legacy}

-- A number above 0 already stands in the profile, so it is never taken for the workload.
legacy_lem : (given profile own : ℤ) → legacy given (override given profile) own ≡ own
legacy_lem (pos n) profile own = elim (Bool-cases (int_lt (pos 0) (pos n))) [
  | inl e ↦ let some_given : (n == 0) ≡ false = ground (arith, e) in rw (e, some_given) refl
  | inr e ↦ rw e refl
]
legacy_lem (negsuc n) profile own =
    let none_given : int_lt (pos 0) (negsuc n) ≡ false = ground arith in rw none_given refl

settings : Workload → String → ℤ → ℤ → ℤ → Workload
settings w d t c p = record w { duration = d; threads = t; clients = c; pipeline = p }

duration_lem :
    (cfg : RunConfig) (w : Workload)
    → settings w
        (if not (str_eq cfg.duration "") && str_eq (build_run_profile cfg).duration ""
          then cfg.duration
          else w.duration)
        w.threads
        w.clients
        w.pipeline
      ≡ (if not (str_eq cfg.duration "") && int_lt (pos 0) cfg.requests
          then record w { duration = cfg.duration }
          else w)
unfolding settings build_run_profile
duration_lem cfg w = elim (Bool-cases (str_eq cfg.duration "")) [
  | inl e ↦ rw e refl
  | inr e ↦ elim (Bool-cases (int_lt (pos 0) cfg.requests)) [
    | inl q ↦ rw (e, q) refl
    | inr q ↦ rw (e, q) (rw e refl)
  ]
]

-- The overrides of the workload that Run makes for compatibility do nothing to threads, clients and
-- pipeline, and set the duration just if a duration and a number of requests above 0 are
-- configured, when the run profile gives up its duration for the requests.
pub with_legacy_lem :
    (cfg : RunConfig) (w : Workload)
    → with_legacy cfg (build_run_profile cfg) w ≡ (
        if not (str_eq cfg.duration "") && int_lt (pos 0) cfg.requests
        then record w { duration = cfg.duration }
        else w)
unfolding with_legacy build_run_profile settings
with_legacy_lem cfg w =
    let q = first_profile cfg in
    let p = build_run_profile cfg in
    let d =
      if not (str_eq cfg.duration "") && str_eq p.duration "" then cfg.duration else w.duration in
    ap
      (λ t.
        settings w d t (legacy cfg.clients p.clients w.clients)
          (legacy cfg.pipeline p.pipeline w.pipeline))
      (legacy_lem cfg.threads q.threads w.threads)
    ∙ ap (λ c. settings w d w.threads c (legacy cfg.pipeline p.pipeline w.pipeline))
        (legacy_lem cfg.clients q.clients w.clients)
    ∙ ap (λ n. settings w d w.threads w.clients n) (legacy_lem cfg.pipeline q.pipeline w.pipeline)
    ∙ duration_lem cfg w
