-- ===== src/TaskStore/Model.antt =====
-- The state of `Store` in internal/task/store.go, with `Save`, `Get`, `Delete` and the loading of
-- the directory. The cache holds pointers: `object` is the memory that they point into, and a
-- caller that keeps the pointer it saved goes on sharing the cached task. A file's content is the
-- task that `json.Unmarshal` reads from it: the JSON of a task reads back as that task. What the
-- file system answers is an argument of each operation.
use redis_meter.Base.{ℕ, ◌+◌, Option, none, some, [], ◌∷◌, String, ◌==◌, if◌then◌else◌}
use redis_meter.Base.Dict.{Dict, get, put, remove}
use redis_meter.Task.Model.{Task, new_task}

-- A `.json` file of the directory: a task, or one that cannot be read or parsed.
pub data File : Type 0 where
  stored : Task → File
  broken : File

-- A file of the archive directory, with its modification time.
pub record Archived : Type 0 where
  pub content : Option File
  pub mod_time : ℕ

pub record Store : Type 0 where
  pub next : ℕ
  pub object : ℕ → Task
  pub cache : Dict ℕ
  pub disk : Dict File
  pub archived : Dict Archived

pub data StoreError : Type 0 where
  marshal_failed write_failed rename_failed remove_failed : StoreError
  not_found : String → StoreError

-- What happens to the file when a task is saved.
pub data SaveOutcome : Type 0 where
  saved : SaveOutcome
  failed : StoreError → SaveOutcome

-- What `os.Remove` answers.
pub data RemoveOutcome : Type 0 where
  removed absent refused : RemoveOutcome

unfoldable pub write : (ℕ → Task) → ℕ → Task → ℕ → Task
write f p t q = if p == q then t else f q

-- The memory of a new object, and its pointer.
unfoldable pub alloc : Store → Task → Store × ℕ
unfolding write
alloc s t = (record s { next = s.next + 1; object = write s.object s.next t }, s.next)

-- A write through a pointer.
unfoldable pub update : Store → ℕ → Task → Store
unfolding write
update s p t = record s { object = write s.object p t }

unfoldable pub load_file : Store → File → Store
unfolding alloc
load_file s File.broken = s
load_file s (File.stored t) = let (u, p) = alloc s t in record u { cache = put u.cache t.id p }

unfoldable pub load_files : Store → Dict File → Store
load_files s [] = s
load_files s ((path, file) ∷ files) = load_files (load_file s file) files

-- `loadAll`: every file that can be read goes into the cache under its task's ID.
unfoldable pub load_all : Store → Store
unfolding load_file load_files
load_all s = load_files s s.disk

-- `NewStore` over a directory that holds these files.
unfoldable pub new_store : Dict File → Dict Archived → Store
unfolding load_all
new_store files old = load_all (record {
  next = 0;
  object = λ p. new_task "" "" "" 0;
  cache = [];
  disk = files;
  archived = old;
})

-- `Save` stamps the caller's task first. A temporary file that cannot be written or renamed leaves
-- the directory's `.json` files and the cache as they are.
unfoldable pub save : Store → ℕ → SaveOutcome → ℕ → Store × Option StoreError
unfolding update
save s p outcome now =
    let t = record (s.object p) { last_updated_at = now } in
    let u = update s p t in
    elim outcome [
      | SaveOutcome.saved ↦
          (record u { disk = put s.disk t.id (File.stored t); cache = put s.cache t.id p }, none)
      | SaveOutcome.failed e ↦ (u, some e)
    ]

-- `copyTask` is the JSON round trip: a new object with the same fields.
unfoldable pub copy_task : Store → ℕ → Store × ℕ
unfolding alloc
copy_task s p = alloc s (s.object p)

-- `Get` gives the pointer to a copy, or says that the task is not there.
pub data Got : Type 0 where
  got : ℕ → Got
  missing : StoreError → Got

unfoldable pub get_task : Store → String → Store × Got
unfolding copy_task
get_task s id = elim (get s.cache id) [
  | none ↦ (s, Got.missing (StoreError.not_found id))
  | some p ↦ let (u, q) = copy_task s p in (u, Got.got q)
]

unfoldable pub delete : Store → String → RemoveOutcome → Store × Option StoreError
delete s id RemoveOutcome.refused = (s, some StoreError.remove_failed)
delete s id _ = (record s { disk = remove s.disk id; cache = remove s.cache id }, none)

-- What a read of the store shows of a task.
unfoldable pub view : Store → String → Option Task
view s id = elim (get s.cache id) [ none ↦ none | some p ↦ some (s.object p) ]
