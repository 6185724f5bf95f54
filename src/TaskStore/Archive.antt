-- ===== src/TaskStore/Archive.antt =====
-- `Archive` and `Cleanup` of internal/task/store.go. `rename_ok` and `remove_ok` say for which
-- files the file system does its part.
use redis_meter.Base.{ℕ, ◌+◌, Bool, ◌&&◌, [], ◌∷◌, String, ltb, if◌then◌else◌}
use redis_meter.Base.Dict.{Dict, get, put, remove}
use redis_meter.Task.Model.{Task}
use redis_meter.Task.Status.{is_terminal}
use redis_meter.TaskStore.Model.{Store, Archived}

unfoldable pub is_due : ℕ → Task → Bool
is_due cutoff t = is_terminal t && ltb t.last_updated_at cutoff

-- `os.Rename` of the task's file keeps its modification time, which `mod_time` gives.
unfoldable pub move_out : Store → String → (String → ℕ) → Store
move_out s id mod_time = record s {
  cache = remove s.cache id;
  disk = remove s.disk id;
  archived = put s.archived id (record { content = get s.disk id; mod_time = mod_time id });
}

module _ (rename_ok : String → Bool) (mod_time : String → ℕ) (cutoff : ℕ) where
  -- The loop over the cache as it was at the start, with the store and the count so far.
  unfoldable pub archive_from : Store → ℕ → Dict ℕ → Store × ℕ
  archive_from s n [] = (s, n)
  archive_from s n ((id, p) ∷ rest) =
      let moves = is_due cutoff (s.object p) && rename_ok id in
      archive_from (if moves then move_out s id mod_time else s) (if moves then n + 1 else n) rest

  unfoldable pub archive : Store → Store × ℕ
  archive s = archive_from s 0 s.cache

-- A file that cannot be examined or removed is left.
module _ (remove_ok : String → Bool) (cutoff : ℕ) where
  clean : Dict Archived → Dict Archived × ℕ
  clean [] = ([], 0)
  clean ((name, a) ∷ rest) =
      let (kept, n) = clean rest in
      if ltb a.mod_time cutoff && remove_ok name then (kept, n + 1) else ((name, a) ∷ kept, n)

  unfoldable pub cleanup : Store → Store × ℕ
  unfolding clean
  cleanup s = let (kept, n) = clean s.archived in (record s { archived = kept }, n)
