-- ===== src/Engine/Success.antt =====
-- When Run of internal/engine/engine.go ends without error.
use redis_meter.Base.{
  false, Option, none, some, String, str_eq, ◌≡◌, ◌↔◌, refl, sym, ◌∙◌, inl, inr, arith, Bool-cases,
}
use redis_meter.Base.Dict.{Dict}
use redis_meter.Base.Result.{Result, ok, err}
use redis_meter.Domain.{Workload, Results, Target, BenchmarkRun}
use redis_meter.Storage.Model.{
  FileStorage, Entity, WriteOutcome, StorageError, get_entity_id, write_entity, save, save_run,
  error_of,
}
use redis_meter.Workloads.Registry.{WorkloadError}
use redis_meter.Engine.Target.{parse_target_url}
use redis_meter.Engine.Profiles.{RunConfig}
use redis_meter.Engine.Run.{
  Outcome, RunError, Inputs, started, ended, completed_with, saved_error, conclude, chosen_workload,
  run_workload, run_target, run,
}

not_none : (e : RunError) {A : Type 0} → some e ≡ none → A
not_none e h = absurd (ground (arith, h))

written_whole :
    (fs : FileStorage) (r : BenchmarkRun) (w : WriteOutcome)
    → saved_error (error_of (write_entity fs "runs" (Entity.run_entity r) w).1) ≡ none
    → w ≡ WriteOutcome.whole
unfolding get_entity_id
written_whole fs r WriteOutcome.whole h = refl
written_whole fs r WriteOutcome.cut_short h = not_none _ h
written_whole fs r WriteOutcome.untouched h = not_none _ h
written_whole fs r WriteOutcome.not_encoded h = not_none _ h
written_whole fs r WriteOutcome.no_directory h = not_none _ h

saved_whole :
    (fs : FileStorage) (r : BenchmarkRun) (w : WriteOutcome)
    → saved_error (save_run fs r w).1 ≡ none
    → (str_eq r.id "" ≡ false) × (w ≡ WriteOutcome.whole)
unfolding save_run save get_entity_id
saved_whole fs r w h = elim (Bool-cases (str_eq r.id "")) [
  | inl e ↦
      let q : saved_error (save_run fs r w).1 ≡ some (RunError.save_failed StorageError.no_id) =
        rw (e, save) refl in
      not_none _ (sym q ∙ h)
  | inr e ↦
      let q : saved_error (save_run fs r w).1
          ≡ saved_error (error_of (write_entity fs "runs" (Entity.run_entity r) w).1) =
        rw (e, save) refl in
      (e, written_whole fs r w (sym q ∙ h))
]

whole_saved :
    (fs : FileStorage) (r : BenchmarkRun) (w : WriteOutcome)
    → str_eq r.id "" ≡ false
    → w ≡ WriteOutcome.whole
    → saved_error (save_run fs r w).1 ≡ none
unfolding save_run save get_entity_id
whole_saved fs r w e q = rw (q, e, save) refl

-- memtier gave results.
abbrev pub IsMeasured : Outcome → Type 0
IsMeasured o = (raw : String) × (results : Results) × (o ≡ Outcome.measured raw results)

module _ (fs : FileStorage) (i : Inputs) where
  conclude-succeeds :
      (r : BenchmarkRun) (o : Outcome)
      → (conclude fs i r o).error ≡ none
      → IsMeasured o × (str_eq r.id "" ≡ false) × (i.write ≡ WriteOutcome.whole)
  unfolding conclude ended
  conclude-succeeds r (Outcome.unavailable e) h = not_none _ h
  conclude-succeeds r (Outcome.run_error e) h = not_none _ h
  conclude-succeeds r (Outcome.result_error e) h = not_none _ h
  conclude-succeeds r (Outcome.unparsable e) h = not_none _ h
  conclude-succeeds r (Outcome.measured raw results) h =
      let w = saved_whole fs (completed_with i (ended i r) raw results) i.write h in
      ((raw, results, refl), w.0, w.1)

  workload-succeeds :
      (cfg : RunConfig) (t : Target) (o : Result WorkloadError Workload)
      → (run_workload fs cfg i t o).error ≡ none
      → ((w : Workload) × (o ≡ ok w))
        × IsMeasured i.outcome
        × (str_eq i.run_id "" ≡ false)
        × (i.write ≡ WriteOutcome.whole)
  unfolding run_workload started
  workload-succeeds cfg t (err e) h = not_none _ h
  workload-succeeds cfg t (ok w) h =
      let c = conclude-succeeds (started cfg i t w) i.outcome h in ((w, refl), c.0, c.1, c.2)

  target-succeeds :
      (registry : Dict Workload) (cfg : RunConfig) (t : Option Target)
      → (run_target registry fs cfg i t).error ≡ none
      → ((u : Target) × (t ≡ some u))
        × ((w : Workload) × (chosen_workload registry cfg i.file ≡ ok w))
        × IsMeasured i.outcome
        × (str_eq i.run_id "" ≡ false)
        × (i.write ≡ WriteOutcome.whole)
  target-succeeds registry cfg none h = not_none _ h
  target-succeeds registry cfg (some t) h =
      let c = workload-succeeds cfg t (chosen_workload registry cfg i.file) h in
      ((t, refl), c.0, c.1, c.2, c.3)

run_gives_results :
    (registry : Dict Workload) (fs : FileStorage) (cfg : RunConfig) (i : Inputs) (t : Target)
    (w : Workload) (raw : String) (results : Results)
    → parse_target_url i.parse cfg.target_url ≡ some t
    → chosen_workload registry cfg i.file ≡ ok w
    → i.outcome ≡ Outcome.measured raw results
    → str_eq i.run_id "" ≡ false
    → i.write ≡ WriteOutcome.whole
    → (run registry fs cfg i).error ≡ none
unfolding run run_workload conclude started ended
run_gives_results registry fs cfg i t w raw results a b o e q =
    rw (a, b, o, run, run_workload, conclude)
      (whole_saved fs (completed_with i (ended i (started cfg i t w)) raw results) i.write e q)

-- Run gives no error just if the address is a target, the workload is found, memtier gives
-- results, the identifier is not empty and the file of the run is written whole.
pub run_succeeds_iff :
    (registry : Dict Workload) (fs : FileStorage) (cfg : RunConfig) (i : Inputs)
    → ((run registry fs cfg i).error ≡ none) ↔ (
        ((t : Target) × (parse_target_url i.parse cfg.target_url ≡ some t))
        × ((w : Workload) × (chosen_workload registry cfg i.file ≡ ok w))
        × IsMeasured i.outcome
        × (str_eq i.run_id "" ≡ false)
        × (i.write ≡ WriteOutcome.whole))
unfolding run
run_succeeds_iff registry fs cfg i = (
  λ h. target-succeeds fs i registry cfg (parse_target_url i.parse cfg.target_url) h,
  λ c. run_gives_results registry fs cfg i c.0.0 c.1.0 c.2.0 c.2.1 c.0.1 c.1.1 c.2.2 c.3 c.4,
)
