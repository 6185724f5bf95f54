-- ===== src/Engine/Records.antt =====
-- What Run of internal/engine/engine.go leaves in the storage.
use redis_meter.Base.{
  false, Option, none, some, String, str_eq, ◌≡◌, ◌≢◌, ◌⊎◌, refl, ap, ◌∙◌, subst, inl, inr,
}
use redis_meter.Base.Dict.{Dict}
use redis_meter.Base.Result.{Result, ok, err}
use redis_meter.Domain.{RunStatus, Workload, Results, Target, BenchmarkRun}
use redis_meter.Storage.Model.{FileStorage, WriteOutcome, Codec, get_run, save_run}
use redis_meter.Storage.Effects.{save_run_effect}
use redis_meter.Workloads.Registry.{WorkloadError}
use redis_meter.Engine.Target.{parse_target_url}
use redis_meter.Engine.Profiles.{RunConfig}
use redis_meter.Engine.Run.{
  Outcome, RunError, Inputs, Answer, started, ended, failed_with, completed_with, give_up,
  saved_error, conclude, chosen_workload, run_workload, run_target, run,
}

-- The status of a run says whether the call gives an error.
abbrev pub HasVerdict : RunStatus → Option RunError → Type 0
HasVerdict status error =
    ((status ≡ RunStatus.completed) × (error ≡ none))
    ⊎ ((status ≡ RunStatus.failed) × ((e : RunError) × (error ≡ some e)))

-- The answer has a run with the identifier, the storage shows that run under it and under the other
-- identifier what it showed before.
pub record IsRecorded (c : Codec) (fs : FileStorage) (id j : String) (a : Answer) : Type 0 where
  made : BenchmarkRun
  answered : a.run ≡ some made
  named : made.id ≡ id
  shown : get_run c a.storage id ≡ ok made
  others : get_run c a.storage j ≡ get_run c fs j
  verdict : HasVerdict made.status a.error

-- The answer has no run and an error, and the storage is as it was.
pub record IsRefused (fs : FileStorage) (a : Answer) : Type 0 where
  no_run : a.run ≡ none
  error : (e : RunError) × (a.error ≡ some e)
  unchanged : a.storage ≡ fs

module _ (c : Codec) (fs : FileStorage) (i : Inputs) (j : String) (w : i.write ≡ WriteOutcome.whole)
    (h : str_eq i.run_id "" ≡ false) (g : j ≢ i.run_id) where
  give_up-IsRecorded :
      (r : BenchmarkRun) (e : RunError)
      → r.id ≡ i.run_id
      → r.status ≡ RunStatus.failed
      → IsRecorded c fs i.run_id j (give_up fs i r e)
  give_up-IsRecorded r e n s =
      let saved = save_run_effect c fs r j (ap (λ x. str_eq x "") n ∙ h) (λ q. g (q ∙ n)) in
      record {
        made = r;
        answered = refl;
        named = n;
        shown =
            rw w (subst (λ x. get_run c (save_run fs r WriteOutcome.whole).0 x ≡ ok r) n saved.1);
        others = rw w saved.2;
        verdict = inr (s, (e, refl));
      }

  measured-IsRecorded :
      (r : BenchmarkRun) (raw : String) (results : Results)
      → r.id ≡ i.run_id
      → IsRecorded c fs i.run_id j (conclude fs i r (Outcome.measured raw results))
  unfolding conclude ended
  measured-IsRecorded r raw results n =
      let done : BenchmarkRun = completed_with i (ended i r) raw results in
      let saved = save_run_effect c fs done j (ap (λ x. str_eq x "") n ∙ h) (λ q. g (q ∙ n)) in
      record {
        made = done;
        answered = refl;
        named = n;
        shown =
            rw w (
              subst (λ x. get_run c (save_run fs done WriteOutcome.whole).0 x ≡ ok done) n saved.1);
        others = rw w saved.2;
        verdict = inl (refl, rw w (ap saved_error saved.0));
      }

  conclude-IsRecorded :
      (r : BenchmarkRun) (o : Outcome)
      → r.id ≡ i.run_id
      → IsRecorded c fs i.run_id j (conclude fs i r o)
  unfolding conclude ended
  conclude-IsRecorded r (Outcome.unavailable e) n =
      give_up-IsRecorded (record (failed_with r e) { end_time = some i.end_time })
        (RunError.memtier_unavailable e) n refl
  conclude-IsRecorded r (Outcome.run_error e) n =
      give_up-IsRecorded (failed_with (ended i r) e) (RunError.execution_failed (some e)) n refl
  conclude-IsRecorded r (Outcome.result_error e) n =
      give_up-IsRecorded (failed_with (ended i r) e) (RunError.execution_failed none) n refl
  conclude-IsRecorded r (Outcome.unparsable e) n =
      give_up-IsRecorded (failed_with (ended i r) e) (RunError.parse_failed e) n refl
  conclude-IsRecorded r (Outcome.measured raw results) n = measured-IsRecorded r raw results n

  run_workload-IsRecorded :
      (cfg : RunConfig) (t : Target) (o : Result WorkloadError Workload)
      → IsRefused fs (run_workload fs cfg i t o)
        ⊎ IsRecorded c fs i.run_id j (run_workload fs cfg i t o)
  unfolding run_workload started
  run_workload-IsRecorded cfg t (err e) =
      inl (record { no_run = refl; error = (RunError.no_workload e, refl); unchanged = refl })
  run_workload-IsRecorded cfg t (ok x) =
      inr (conclude-IsRecorded (started cfg i t x) i.outcome refl)

  run_target-IsRecorded :
      (registry : Dict Workload) (cfg : RunConfig) (t : Option Target)
      → IsRefused fs (run_target registry fs cfg i t)
        ⊎ IsRecorded c fs i.run_id j (run_target registry fs cfg i t)
  run_target-IsRecorded registry cfg none =
      inl (record { no_run = refl; error = (RunError.invalid_target, refl); unchanged = refl })
  run_target-IsRecorded registry cfg (some t) =
      run_workload-IsRecorded cfg t (chosen_workload registry cfg i.file)

-- If the identifier is not empty and the file of the run is written whole, Run either answers an
-- error and no run and leaves the storage as it was, or it answers a run under the identifier, the
-- storage shows just that run there and any other identifier as before, and the run is completed, with no
-- error of the call, or failed, with one: it is never left running.
pub run_effect :
    (c : Codec) (registry : Dict Workload) (fs : FileStorage) (cfg : RunConfig) (i : Inputs)
    (j : String)
    → i.write ≡ WriteOutcome.whole
    → str_eq i.run_id "" ≡ false
    → j ≢ i.run_id
    → IsRefused fs (run registry fs cfg i) ⊎ IsRecorded c fs i.run_id j (run registry fs cfg i)
unfolding run
run_effect c registry fs cfg i j w h g =
    run_target-IsRecorded c fs i j w h g registry cfg (parse_target_url i.parse cfg.target_url)
