-- ===== src/Executor/Writes.antt =====
-- A goroutine of internal/task/executor.go writes its own object and saves it: what the store shows
-- afterwards.
use redis_meter.Base.{
  ℕ, ◌+◌, ◌<◌, ◌≡◌, refl, ap, ◌∙◌, ◌≢◌, Bool-cases, inl, inr, none, some, String, str_eq,
  if◌then◌else◌, arith, eq_iff,
}
use redis_meter.Task.Model.{Task}
use redis_meter.TaskStore.Model.{Store, SaveOutcome, write, update, save, view}
use redis_meter.TaskStore.View.{
  IsWellFormed, stamped, save-view, save-object, view_congr, write_self, write_ne,
}
use redis_meter.TaskStore.History.{save-IsWellFormed}
use redis_meter.Executor.Model.{Executor, Env, at, now, set_task, save_task}

module _ (s : Store) (p : ℕ) (t : Task) (same : t.id ≡ (s.object p).id) where
  pub update-IsWellFormed : IsWellFormed s → IsWellFormed (update s p t)
  unfolding update write
  update-IsWellFormed w = record {
    allocated = w.allocated;
    keyed = λ j q h. ground (arith, w.keyed j q);
  }

  update-view :
      (j : String) → IsWellFormed s → (s.object p).id ≢ j → view (update s p t) j ≡ view s j
  unfolding update
  update-view j w h =
      view_congr s (update s p t) j refl
        (λ q e. write_ne s.object p q t (λ i. h (ap (λ x. (s.object x).id) i ∙ w.keyed j q e)))

module _ (env : Env) where
  pub save_task_saved :
      (e : Executor) (p : ℕ)
      → env.answer e.clock ≡ SaveOutcome.saved
      → save_task env e p ≡ (
        record e {
          store = (save e.store p SaveOutcome.saved (env.time e.clock)).0;
          clock = e.clock + 1;
        },
        none,
      )
  unfolding save_task save
  save_task_saved e p h = rw h

module _ (env : Env) (e : Executor) (p : ℕ) (t : Task) where
  -- The store after the object is written and saved.
  abbrev pub written : Store
  written = (save (update e.store p t) p SaveOutcome.saved (now env e)).0

  pub write_saved :
      env.answer e.clock ≡ SaveOutcome.saved
      → save_task env (set_task env e p t) p
        ≡ (record e { store = written; clock = e.clock + 1 }, none)
  unfolding save_task set_task save
  write_saved h = rw h

  pub update-object : (update e.store p t).object p ≡ t
  unfolding update
  update-object = write_self e.store.object p t

  pub written-object : written.object p ≡ stamped t (now env e)
  written-object =
      ap (λ (g : ℕ → Task). g p) (save-object (update e.store p t) p (now env e) SaveOutcome.saved)
      ∙ write_self (update e.store p t).object p _
      ∙ ap (λ x. stamped x (now env e)) update-object

  module _ (same : t.id ≡ (at e p).id) (w : IsWellFormed e.store) where
    pub written-IsWellFormed : p < e.store.next → IsWellFormed written
    written-IsWellFormed h =
        save-IsWellFormed (update e.store p t) p (now env e) (unfold update in h)
          (update-IsWellFormed e.store p t same w)

    pub written-view :
        (j : String)
        → view written j ≡ (if str_eq t.id j then some (stamped t (now env e)) else view e.store j)
    written-view j = elim (Bool-cases (str_eq t.id j)) [
      | inl b ↦ seen j ∙ rw b
      | inr b ↦
          seen j ∙ rw b (update-view e.store p t same j w (λ i. ground (arith, eq_iff t.id j)))
    ]
      where
        seen :
            (k : String)
            → view written k ≡ (
                if str_eq t.id k then some (stamped t (now env e)) else view (update e.store p t) k)
        seen k =
            save-view (update e.store p t) p (now env e) k (update-IsWellFormed e.store p t same w)
            ∙ rw update-object
