-- ===== src/TaskStore/Recovery.antt =====
-- Opening a store again over the directory of internal/task/store.go.
use redis_meter.Base.{
  ◌≡◌, refl, ap, ◌∙◌, sym, Bool-cases, inl, inr, Option, none, some, [], ◌∷◌, String, str_eq,
  if◌then◌else◌, eq_iff, arith,
}
use redis_meter.Base.Dict.{Dict, get, get-put, HasDistinctKeys}
use redis_meter.Task.Model.{Task, new_task}
use redis_meter.TaskStore.Model.{
  File, Archived, Store, write, view, load_file, load_files, new_store,
}
use redis_meter.TaskStore.View.{
  IsWellFormed, view_congr, view_of_get, view_of_none, write_self, write_ne,
}

-- The task that a file holds.
abbrev pub read_file : Option File → Option Task
read_file none = none
read_file (some File.broken) = none
read_file (some (File.stored t)) = some t

-- Each file is named for the ID of the task in it.
abbrev pub HasOwnNames : Dict File → Type 0
HasOwnNames files = (j : String) (t : Task) → get files j ≡ some (File.stored t) → t.id ≡ j

-- The cache shows what the directory holds.
pub record IsDurable (s : Store) : Type 0 where
  pub same : (j : String) → view s j ≡ read_file (get s.disk j)
  pub named : HasOwnNames s.disk
  pub distinct : HasDistinctKeys s.disk

abbrev or_else : Option Task → Option Task → Option Task
or_else none b = b
or_else (some a) b = some a

or_else-none : (a : Option Task) {b : Option Task} → b ≡ none → or_else a b ≡ a
or_else-none none e = e
or_else-none (some t) e = refl

load_file-view :
    (s : Store) (t : Task) (j : String)
    → IsWellFormed s
    → view (load_file s (File.stored t)) j ≡ (if str_eq t.id j then some t else view s j)
unfolding load_file
load_file-view s t j w = elim (Bool-cases (str_eq t.id j)) [
  | inl e ↦
      view_of_get _ j s.next (get-put s.cache t.id j s.next ∙ rw e)
      ∙ ap some (write_self s.object s.next t)
      ∙ rw e
  | inr e ↦
      view_congr s _ j (get-put s.cache t.id j s.next ∙ rw e)
        (λ q h. write_ne s.object s.next q t (λ p. omega (arith, w.allocated j q h)))
      ∙ rw e
]

load_file-IsWellFormed : (s : Store) (f : File) → IsWellFormed s → IsWellFormed (load_file s f)
unfolding load_file write
load_file-IsWellFormed s File.broken w = w
load_file-IsWellFormed s (File.stored t) w = record {
  allocated =
      λ j q h. ground (arith, eq_iff t.id j, get-put s.cache t.id j s.next, w.allocated j q);
  keyed = λ j q h.
      ground (arith, eq_iff t.id j, get-put s.cache t.id j s.next, w.allocated j q, w.keyed j q);
}

HasOwnNames-tail :
    (k : String) (f : File) (files : Dict File)
    → get files k ≡ none
    → HasOwnNames ((k, f) ∷ files)
    → HasOwnNames files
unfolding get
HasOwnNames-tail k f files fresh n j t h = ground (arith, eq_iff k j, n j t)

HasOwnNames-head :
    (k : String) (t : Task) (files : Dict File)
    → HasOwnNames ((k, File.stored t) ∷ files)
    → t.id ≡ k
unfolding get
HasOwnNames-head k t files n = n k t (ground (arith, eq_iff k k))

load_files-IsWellFormed :
    (files : Dict File) (s : Store) → IsWellFormed s → IsWellFormed (load_files s files)
unfolding load_files
load_files-IsWellFormed [] s w = w
load_files-IsWellFormed ((k, f) ∷ files) s w =
    load_files-IsWellFormed files (load_file s f) (load_file-IsWellFormed s f w)

-- Loading shows each file that can be read, and what was shown before where there is none.
load_files-view :
    (files : Dict File) (s : Store) (j : String)
    → IsWellFormed s
    → HasDistinctKeys files
    → HasOwnNames files
    → view (load_files s files) j ≡ or_else (read_file (get files j)) (view s j)
unfolding load_files get
load_files-view [] s j w d n = refl
load_files-view ((k, File.broken) ∷ files) s j w d n =
    load_files-view files (load_file s File.broken) j (load_file-IsWellFormed s File.broken w) d.1
      (HasOwnNames-tail k File.broken files d.0 n)
    ∙ unfold load_file in ground (arith, eq_iff k j, d.0)
load_files-view ((k, File.stored t) ∷ files) s j w d n =
    load_files-view files (load_file s (File.stored t)) j
      (load_file-IsWellFormed s (File.stored t) w) d.1
      (HasOwnNames-tail k (File.stored t) files d.0 n)
    ∙ rw (load_file-view s t j w, HasOwnNames-head k t files n) (ground (arith, eq_iff k j, d.0))

fresh : Dict File → Dict Archived → Store
fresh files old = record {
  next = 0;
  object = λ p. new_task "" "" "" 0;
  cache = [];
  disk = files;
  archived = old;
}

fresh-IsWellFormed : (files : Dict File) (old : Dict Archived) → IsWellFormed (fresh files old)
unfolding fresh get
fresh-IsWellFormed files old = record { allocated = λ j q h. cc; keyed = λ j q h. cc }

new_store-load :
    (files : Dict File) (old : Dict Archived)
    → new_store files old ≡ load_files (fresh files old) files
unfolding new_store fresh
new_store-load files old = refl

load_files-disk : (files : Dict File) (s : Store) → (load_files s files).disk ≡ s.disk
unfolding load_files load_file
load_files-disk [] s = refl
load_files-disk ((k, File.broken) ∷ files) s = load_files-disk files s
load_files-disk ((k, File.stored t) ∷ files) s = load_files-disk files (load_file s (File.stored t))

pub new_store-disk : (files : Dict File) (old : Dict Archived) → (new_store files old).disk ≡ files
new_store-disk files old =
    rw (new_store-load files old) (load_files-disk files (fresh files old) ∙ unfold fresh in refl)

-- Opening a directory whose files are named for their tasks gives a well-formed store that shows
-- exactly the tasks of the files that can be read.
pub new_store-view :
    (files : Dict File) (old : Dict Archived) (j : String)
    → HasDistinctKeys files
    → HasOwnNames files
    → (view (new_store files old) j ≡ read_file (get files j)) × IsWellFormed (new_store files old)
new_store-view files old j d n = rw (new_store-load files old) (
  load_files-view files (fresh files old) j (fresh-IsWellFormed files old) d n
      ∙ or_else-none (read_file (get files j))
          (view_of_none (fresh files old) j (unfold fresh get in refl)),
  load_files-IsWellFormed files (fresh files old) (fresh-IsWellFormed files old),
)

-- A restart, as after a crash, shows every task that a durable store showed, as it was, and none
-- that it did not show.
pub restart_shows_same :
    (s : Store) (old : Dict Archived) (j : String)
    → IsDurable s
    → view (new_store s.disk old) j ≡ view s j
restart_shows_same s old j h = (new_store-view s.disk old j h.distinct h.named).0 ∙ sym (h.same j)
