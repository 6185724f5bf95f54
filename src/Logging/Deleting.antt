-- ===== src/Logging/Deleting.antt =====
-- internal/logging/json_store.go: Delete, countEntriesInFile and truncateFile. `opens` says which
-- files can be read, `changes` which can be removed or written again, and `encodes` which entries Encode
-- writes.
use redis_meter.Base.{
  ℕ, ◌+◌, Bool, true, false, not, ◌&&◌, List, [], ◌∷◌, ◌++◌, ltb, ◌==◌, if◌then◌else◌, length,
  select,
}
use redis_meter.Base.Text.{is_empty}
use redis_meter.Logging.Model.{Entry, Line, Files, JsonStore, day, load_file}

unfoldable pub is_old : ℕ → Entry → Bool
is_old before e = ltb e.timestamp before

unfoldable pub kept : ℕ → List Entry → List Entry
kept before es = select (λ e. not (is_old before e)) es

unfoldable pub old_count : ℕ → List Entry → ℕ
old_count before es = length (select (is_old before) es)

module _ (opens changes : ℕ → Bool) (encodes : Entry → Bool) where
  -- The rewriting stops at the first entry that Encode does not write.
  unfoldable pub rewrite : List Entry → List Line × Bool
  rewrite [] = ([], true)
  rewrite (e ∷ es) =
      let (ls, whole) = rewrite es in
      if encodes e then (Line.marshalled e ∷ ls, whole) else ([], false)

  -- The file after the truncation, if it is left, and the count that Delete adds.
  unfoldable pub truncate_file : ℕ → List Line → ℕ → Files × ℕ
  truncate_file d ls before =
      let keep = kept before (load_file ls) in
      let old = old_count before (load_file ls) in
      if not (opens d && changes d)
      then ((d, ls) ∷ [], 0)
      else if is_empty keep
      then ([], old)
      else ((d, (rewrite keep).0) ∷ [], if (rewrite keep).1 then old else 0)

  unfoldable pub delete_file : ℕ → List Line → ℕ → Files × ℕ
  delete_file d ls before =
      if ltb d (day before)
      then (if changes d
          then ([], (if opens d then length (load_file ls) else 0))
          else ((d, ls) ∷ [], 0))
      else (if d == day before then truncate_file d ls before else ((d, ls) ∷ [], 0))

  unfoldable pub delete_files : Files → ℕ → Files × ℕ
  delete_files [] before = ([], 0)
  delete_files ((d, ls) ∷ fs) before =
      let (file, n) = delete_file d ls before in
      let (files, m) = delete_files fs before in (file ++ files, n + m)

  unfoldable pub delete : JsonStore → ℕ → JsonStore × ℕ
  delete s before =
      let (files, n) = delete_files s.files before in
      (record s { cache = kept before s.cache; files = files }, old_count before s.cache + n)
