-- ===== src/TaskStore/View.antt =====
-- The store of internal/task/store.go as its readers see it: what each operation does to the view.
use redis_meter.Base.{
  ℕ, ◌<◌, ◌≡◌, refl, ap, ◌∙◌, sym, ◌≢◌, Bool, true, false, not, ◌&&◌, Bool-cases, Option-cases, inl,
  inr, none, some, String, str_eq, if◌then◌else◌, eq_iff, arith,
}
use redis_meter.Base.Dict.{get, get-put, get-remove}
use redis_meter.Task.Model.{Task}
use redis_meter.TaskStore.Model.{
  File, Store, StoreError, SaveOutcome, RemoveOutcome, Got, write, alloc, update, save, get_task,
  delete, view,
}

-- Every cached pointer is allocated, and points to a task with the ID that it is cached under.
pub record IsWellFormed (s : Store) : Type 0 where
  pub allocated : (j : String) (q : ℕ) → get s.cache j ≡ some q → q < s.next
  pub keyed : (j : String) (q : ℕ) → get s.cache j ≡ some q → (s.object q).id ≡ j

abbrev pub stamped : Task → ℕ → Task
stamped t now = record t { last_updated_at = now }

pub view_of_get :
    (s : Store) (j : String) (q : ℕ) → get s.cache j ≡ some q → view s j ≡ some (s.object q)
unfolding view
view_of_get s j q h = ground arith

pub view_of_none : (s : Store) (j : String) → get s.cache j ≡ none → view s j ≡ none
unfolding view
view_of_none s j h = ground arith

-- Two stores that agree on a key's pointer and on what it points to show the same task.
pub view_congr :
    (s u : Store) (j : String)
    → get u.cache j ≡ get s.cache j
    → ((q : ℕ) → get s.cache j ≡ some q → u.object q ≡ s.object q)
    → view u j ≡ view s j
view_congr s u j same keep = elim (Option-cases (get s.cache j)) [
  | inl e ↦ view_of_none u j (same ∙ e) ∙ sym (view_of_none s j e)
  | inr (q, e) ↦ view_of_get u j q (same ∙ e) ∙ ap some (keep q e) ∙ sym (view_of_get s j q e)
]

pub write_self : (f : ℕ → Task) (p : ℕ) (t : Task) → write f p t p ≡ t
unfolding write
write_self f p t = ground arith

pub write_ne : (f : ℕ → Task) (p q : ℕ) (t : Task) → p ≢ q → write f p t q ≡ f q
unfolding write
write_ne f p q t h = ground arith

-- The memory and the cache after a successful save.
saved_get :
    (s : Store) (p now : ℕ) (j : String)
    → get (save s p SaveOutcome.saved now).0.cache j
      ≡ (if str_eq (s.object p).id j then some p else get s.cache j)
unfolding save
saved_get s p now j = get-put s.cache (s.object p).id j p

pub save-object :
    (s : Store) (p now : ℕ) (o : SaveOutcome)
    → (save s p o now).0.object ≡ write s.object p (stamped (s.object p) now)
unfolding save
save-object s p now SaveOutcome.saved = refl
save-object s p now (SaveOutcome.failed e) = refl

other_pointer :
    (s : Store) (p q : ℕ) (j : String)
    → IsWellFormed s
    → (s.object p).id ≢ j
    → get s.cache j ≡ some q
    → p ≢ q
other_pointer s p q j w h e = λ same. h (ap (λ x. (s.object x).id) same ∙ w.keyed j q e)

pub save-view :
    (s : Store) (p now : ℕ) (j : String)
    → IsWellFormed s
    → view (save s p SaveOutcome.saved now).0 j
      ≡ (if str_eq (s.object p).id j then some (stamped (s.object p) now) else view s j)
save-view s p now j w = elim (Bool-cases (str_eq (s.object p).id j)) [
  | inl e ↦
      view_of_get _ j p (saved_get s p now j ∙ rw e)
      ∙ ap some (
          ap (λ (f : ℕ → Task). f p) (save-object s p now SaveOutcome.saved)
          ∙ write_self s.object p _)
      ∙ rw e
  | inr e ↦
      view_congr s _ j (saved_get s p now j ∙ rw e) (λ q h.
        ap (λ (f : ℕ → Task). f q) (save-object s p now SaveOutcome.saved)
        ∙ write_ne s.object p q _
            (other_pointer s p q j w (λ i. ground (arith, eq_iff (s.object p).id j)) h))
      ∙ rw e
]

-- In a well-formed store a save that succeeds shows the stamped task under its ID, in the cache and in the directory, and
-- changes no other task.
pub save_effect :
    (s : Store) (p now : ℕ)
    → IsWellFormed s
    → (j : String)
    → let t = stamped (s.object p) now in
      let (u, e) = save s p SaveOutcome.saved now in
      (e ≡ none)
      × (view u j ≡ (if str_eq t.id j then some t else view s j))
      × (get u.disk j ≡ (if str_eq t.id j then some (File.stored t) else get s.disk j))
unfolding save
save_effect s p now w j = (refl, save-view s p now j w, get-put s.disk (s.object p).id j _)

-- A save that fails reports the error and leaves the directory and the cached pointers alone, but
-- the caller's task has the new time, and so has the cached task if the caller shares it.
pub failed_save :
    (s : Store) (p now : ℕ) (x : StoreError)
    → let (u, e) = save s p (SaveOutcome.failed x) now in
      (e ≡ some x)
      × (u.disk ≡ s.disk)
      × (u.cache ≡ s.cache)
      × (u.object p ≡ stamped (s.object p) now)
unfolding save
failed_save s p now x = (refl, refl, refl, write_self s.object p _)

pub pointer_of_view :
    (s : Store) (id : String) (t : Task)
    → view s id ≡ some t
    → (p : ℕ) × (get s.cache id ≡ some p) × (s.object p ≡ t)
pointer_of_view s id t h = elim (Option-cases (get s.cache id)) [
  | inl e ↦ cc (view_of_none s id e)
  | inr (p, e) ↦ (p, e, cc (view_of_get s id p e))
]

pub get_task_found :
    (s : Store) (id : String) (p : ℕ)
    → get s.cache id ≡ some p
    → get_task s id ≡ ((alloc s (s.object p)).0, Got.got s.next)
unfolding get_task
get_task_found s id p h = ground arith

-- A new object is seen by no reader of the store, whatever is written to it.
pub fresh_unseen :
    (s : Store) (t written : Task) (j : String)
    → IsWellFormed s
    → view (update (alloc s t).0 s.next written) j ≡ view s j
unfolding update alloc
fresh_unseen s t written j w = view_congr s _ j refl (λ q h.
    write_ne (write s.object s.next t) s.next q written (λ e. omega (arith, w.allocated j q h))
    ∙ write_ne s.object s.next q t (λ e. omega (arith, w.allocated j q h)))

pub alloc-object : (s : Store) (t : Task) → (alloc s t).0.object s.next ≡ t
unfolding alloc
alloc-object s t = write_self s.object s.next t

-- In a well-formed store `Get` of a task that is there gives a copy: it shows the task, and whatever is written through
-- its pointer, no reader of the store sees it.
pub get_task_isolated :
    (s : Store) (id : String) (t written : Task) (j : String)
    → IsWellFormed s
    → view s id ≡ some t
    → let u = (get_task s id).0 in
      ((get_task s id).1 ≡ Got.got s.next)
      × (u.object s.next ≡ t)
      × (view (update u s.next written) j ≡ view s j)
get_task_isolated s id t written j w h =
    let (p, e, o) = pointer_of_view s id t h in
    rw (get_task_found s id p e)
      (refl, alloc-object s (s.object p) ∙ o, fresh_unseen s (s.object p) written j w)

abbrev pub is_refused : RemoveOutcome → Bool
is_refused RemoveOutcome.refused = true
is_refused _ = false

-- `Delete` takes the task out of the cache and the directory, also where the file was gone, and
-- touches no other task; where the file cannot be removed it reports so and changes nothing.
pub delete_effect :
    (s : Store) (id j : String) (o : RemoveOutcome)
    → let (u, err) = delete s id o in
      let gone = not (is_refused o) && str_eq id j in
      (err ≡ (if is_refused o then some StoreError.remove_failed else none))
      × (view u j ≡ (if gone then none else view s j))
      × (get u.disk j ≡ (if gone then none else get s.disk j))
unfolding delete view
delete_effect s id j RemoveOutcome.refused = (refl, refl, refl)
delete_effect s id j RemoveOutcome.removed =
    (refl, ground (arith, get-remove s.cache id j), get-remove s.disk id j)
delete_effect s id j RemoveOutcome.absent =
    (refl, ground (arith, get-remove s.cache id j), get-remove s.disk id j)
