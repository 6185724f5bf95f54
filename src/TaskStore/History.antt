-- ===== src/TaskStore/History.antt =====
-- Histories of the store of internal/task/store.go: tasks are created, edited by their users
-- (`Get`, a change, `Save`) and deleted, and the process may be restarted at any time.
use redis_meter.Base.{
  ℕ, ◌<◌, ◌≡◌, refl, ap, ◌∙◌, sym, Bool, true, false, Option, some, String, str_eq, if◌then◌else◌,
  eq_iff, arith,
}
use redis_meter.Base.Dict.{
  Dict, get, get-put, get-remove, put-HasDistinctKeys, remove-HasDistinctKeys,
}
use redis_meter.Task.Model.{Task}
use redis_meter.TaskStore.Model.{
  File, Archived, Store, SaveOutcome, RemoveOutcome, write, alloc, update, save, get_task, delete,
  view, new_store,
}
use redis_meter.TaskStore.View.{IsWellFormed, stamped, save_effect, fresh_unseen, get_task_found}
use redis_meter.TaskStore.Recovery.{
  IsDurable, read_file, new_store-disk, new_store-view, restart_shows_same,
}

-- A new object that holds `t`, as a caller that makes or copies a task and then edits it has.
abbrev pub draft : Store → Task → Task → Store
draft s original t = update (alloc s original).0 s.next t

pub draft-IsDurable :
    (s : Store) (o t : Task) → IsWellFormed s → IsDurable s → IsDurable (draft s o t)
unfolding update alloc
draft-IsDurable s o t w h = record {
  same = λ j. unfold update alloc in (fresh_unseen s o t j w ∙ h.same j);
  named = h.named;
  distinct = h.distinct;
}

pub draft-IsWellFormed : (s : Store) (o t : Task) → IsWellFormed s → IsWellFormed (draft s o t)
unfolding update alloc write
draft-IsWellFormed s o t w = record {
  allocated = λ j q h. omega (arith, w.allocated j q h);
  keyed = λ j q h. ground (arith, w.allocated j q, w.keyed j q);
}

pub save-IsWellFormed :
    (s : Store) (p now : ℕ)
    → p < s.next
    → IsWellFormed s
    → IsWellFormed (save s p SaveOutcome.saved now).0
unfolding save write
save-IsWellFormed s p now b w = record {
  allocated = λ j q h.
      ground
        (arith, eq_iff (s.object p).id j, get-put s.cache (s.object p).id j p, w.allocated j q);
  keyed = λ j q h.
      ground (arith, eq_iff (s.object p).id j, get-put s.cache (s.object p).id j p, w.keyed j q);
}

-- Saving keeps a store durable.
pub save-IsDurable :
    (s : Store) (p now : ℕ)
    → IsWellFormed s
    → IsDurable s
    → IsDurable (save s p SaveOutcome.saved now).0
save-IsDurable s p now w h = record {
  same = λ j.
      let t = stamped (s.object p) now in
      let (_, v, d) = save_effect s p now w j in
      rw (v, d) (saved_same (str_eq t.id j) t (view s j) (get s.disk j) (h.same j));
  named = λ j t e.
      let (_, v, d) = save_effect s p now w j in
      ground (arith, eq_iff (s.object p).id j, h.named j t);
  distinct = unfold save in put-HasDistinctKeys s.disk (s.object p).id _ h.distinct;
}
  where
    saved_same :
        (b : Bool) (t : Task) (v : Option Task) (d : Option File)
        → v ≡ read_file d
        → (if b then some t else v) ≡ read_file (if b then some (File.stored t) else d)
    saved_same true t v d e = refl
    saved_same false t v d e = e

delete-IsWellFormed :
    (s : Store) (id : String) (o : RemoveOutcome) → IsWellFormed s → IsWellFormed (delete s id o).0
unfolding delete
delete-IsWellFormed s id RemoveOutcome.refused w = w
delete-IsWellFormed s id _ w = record {
  allocated = λ j q h. ground (arith, get-remove s.cache id j, w.allocated j q);
  keyed = λ j q h. ground (arith, get-remove s.cache id j, w.keyed j q);
}

delete-IsDurable :
    (s : Store) (id : String) (o : RemoveOutcome) → IsDurable s → IsDurable (delete s id o).0
unfolding delete view
delete-IsDurable s id RemoveOutcome.refused h = h
delete-IsDurable s id _ h = record {
  same = λ j.
      let same : view s j ≡ read_file (get s.disk j) = h.same j in
      unfold view in ground (arith, get-remove s.cache id j, get-remove s.disk id j, same);
  named = λ j t e. ground (arith, get-remove s.disk id j, h.named j t);
  distinct = remove-HasDistinctKeys s.disk id h.distinct;
}

-- What users of a store do to it, where the disk takes every write.
pub data Change : Store → Store → Type 0 where
  create :
      (s : Store) (t : Task) (now : ℕ)
      → Change s (save (draft s t t) s.next SaveOutcome.saved now).0
  edit :
      (s : Store) (id : String) (p : ℕ) (t : Task) (now : ℕ)
      → get s.cache id ≡ some p
      → Change s (save (update (get_task s id).0 s.next t) s.next SaveOutcome.saved now).0
  erase : (s : Store) (id : String) (o : RemoveOutcome) → Change s (delete s id o).0
  restart : (s : Store) → Change s (new_store s.disk s.archived)

pub data History (s : Store) : Store → Type 0 where
  start : History s s
  next : {t u : Store} → History s t → Change t u → History s u

pub record IsSound (s : Store) : Type 0 where
  pub formed : IsWellFormed s
  pub durable : IsDurable s

draft-saved :
    (s : Store) (o t : Task) (now : ℕ)
    → IsSound s
    → IsSound (save (draft s o t) s.next SaveOutcome.saved now).0
draft-saved s o t now h =
    let w = draft-IsWellFormed s o t h.formed in
    record {
      formed = save-IsWellFormed (draft s o t) s.next now (unfold update alloc in omega arith) w;
      durable =
          save-IsDurable (draft s o t) s.next now w (draft-IsDurable s o t h.formed h.durable);
    }

restart-IsDurable : (s : Store) → IsDurable s → IsDurable (new_store s.disk s.archived)
restart-IsDurable s h =
    let d = new_store-disk s.disk s.archived in
    record {
      same = λ j.
          restart_shows_same s s.archived j h
          ∙ h.same j
          ∙ ap (λ (files : Dict File). read_file (get files j)) (sym d);
      named = rw d h.named;
      distinct = rw d h.distinct;
    }

Change-IsSound : {s u : Store} → Change s u → IsSound s → IsSound u
Change-IsSound (create s t now) h = draft-saved s t t now h
Change-IsSound (edit s id p t now e) h =
    rw (get_task_found s id p e) (draft-saved s (s.object p) t now h)
Change-IsSound (erase s id o) h = record {
  formed = delete-IsWellFormed s id o h.formed;
  durable = delete-IsDurable s id o h.durable;
}
Change-IsSound (restart s) h = record {
  formed = (new_store-view s.disk s.archived "" h.durable.distinct h.durable.named).1;
  durable = restart-IsDurable s h.durable;
}

History-IsSound : {s u : Store} → History s u → IsSound s → IsSound u
History-IsSound start h = h
History-IsSound (next r c) h = Change-IsSound c (History-IsSound r h)

-- After any history of creations, edits, deletions and restarts of a sound store, on a disk that
-- takes every write, a restart shows every task as it was shown before, and no other.
pub history_survives_restart :
    (s u : Store) (old : Dict Archived) (j : String)
    → IsSound s
    → History s u
    → view (new_store u.disk old) j ≡ view u j
history_survives_restart s u old j h r = restart_shows_same u old j (History-IsSound r h).durable
