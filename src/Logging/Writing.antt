-- ===== src/Logging/Writing.antt =====
-- internal/logging/json_store.go: NewJSONStore, loadRecentEntries, Save, saveSync, backgroundWriter,
-- ImportFromJSONL and Close. `opens` says which files can be opened, and `encodes` which entries Encode
-- writes: it writes the whole line or, with an error, nothing. The context of a Save has not ended.
use redis_meter.Base.{
  ℕ, ◌+◌, ◌-◌, Bool, true, false, List, [], ◌∷◌, ◌++◌, ltb, leb, if◌then◌else◌, length, take, drop,
}
use redis_meter.Base.Text.{Text, is_empty}
use redis_meter.Logging.Model.{Line, load_file, Entry, Files, JsonStore, day, append_to}

-- The last `n` entries.
unfoldable pub last_of : ℕ → List Entry → List Entry
last_of n es = if ltb n (length es) then drop (length es - n) es else es

abbrev pub without_first : List Entry → List Entry
without_first [] = []
without_first (e ∷ es) = es

abbrev pub cut_first : ℕ → List Entry → List Entry
cut_first n es = if ltb n (length es) then without_first es else es

unfoldable pub newest_first : Files → Files
newest_first [] = []
newest_first (f ∷ fs) = newest_first fs ++ (f ∷ [])

module _ (opens : ℕ → Bool) where
  -- The loop of loadRecentEntries over the files, from the newest on.
  unfoldable pub load_recent : Files → ℕ → List Entry → List Entry
  load_recent [] max cache = cache
  load_recent ((d, ls) ∷ fs) max cache =
      let skipped = load_recent fs max cache in
      let more = load_recent fs max (load_file ls ++ cache) in
      if opens d
      then (if leb max (length (load_file ls ++ cache))
          then take max (load_file ls ++ cache)
          else more)
      else skipped

  unfoldable pub new_json_store : Files → JsonStore
  new_json_store files = record {
    cache = load_recent (newest_first files) 10000 [];
    cache_max = 10000;
    buffer = [];
    pending = [];
    files = files;
  }

module _ (opens : ℕ → Bool) (encodes : Entry → Bool) where
  -- What Encode writes.
  abbrev pub lines_of : Entry → List Line
  lines_of e = if encodes e then Line.marshalled e ∷ [] else []

  -- The answer says whether the file could be opened and the entry written.
  unfoldable pub save_sync : JsonStore → Entry → JsonStore × Bool
  save_sync s e =
      let files = append_to s.files (day e.timestamp) (lines_of e) in
      let written = record s {
        files = files;
        cache = cut_first s.cache_max (s.cache ++ (e ∷ []));
      } in
      if opens (day e.timestamp)
      then (if encodes e then (written, true) else (record s { files = files }, false))
      else (s, false)

  unfoldable pub save : JsonStore → Entry → JsonStore × Bool
  save s e =
      if ltb (length s.buffer) 1000
      then (record s { buffer = s.buffer ++ (e ∷ []) }, true)
      else save_sync s e

  -- The entries of each date, in their order, are written to its file, if it can be opened; the errors
  -- of Encode are only reported.
  unfoldable pub write_all : Files → List Entry → Files
  write_all fs [] = fs
  write_all fs (e ∷ es) =
      let files = append_to fs (day e.timestamp) (lines_of e) in
      write_all (if opens (day e.timestamp) then files else fs) es

  unfoldable pub flush_entries : JsonStore → List Entry → JsonStore
  flush_entries s [] = s
  flush_entries s (e ∷ es) = record s {
    files = write_all s.files (e ∷ es);
    cache = last_of s.cache_max (s.cache ++ (e ∷ es));
    pending = [];
  }

  unfoldable pub flush : JsonStore → JsonStore
  flush s = flush_entries s s.pending

  abbrev pub flush_if : Bool → JsonStore → JsonStore
  flush_if true s = flush s
  flush_if false s = s

  unfoldable pub take_from : List Entry → JsonStore → JsonStore
  take_from [] s = s
  take_from (e ∷ es) s =
      flush_if (leb 100 (length (s.pending ++ (e ∷ []))))
        (record s { buffer = es; pending = s.pending ++ (e ∷ []) })

  -- The background writer takes an entry from the channel.
  unfoldable pub take_entry : JsonStore → JsonStore
  take_entry s = take_from s.buffer s

  -- Close: the writer takes all that is left and flushes.
  unfoldable pub close : JsonStore → JsonStore
  close s = flush (record s { buffer = []; pending = s.pending ++ s.buffer })

  abbrev pub with_id : Text → Entry → Entry
  with_id fresh e = if is_empty e.id then record e { id = fresh } else e

  -- The loop of ImportFromJSONL over the lines, with the count so far; `fresh n` is the identifier
  -- that it makes up. The answer also says whether it came to the end: it stops at the first line that
  -- Decode refuses and the first Save that fails.
  unfoldable pub import_jsonl : (ℕ → Text) → JsonStore → ℕ → List Line → JsonStore × ℕ × Bool
  import_jsonl fresh s n [] = (s, n, true)
  import_jsonl fresh s n (Line.marshalled e ∷ ls) = (s, n, false)
  import_jsonl fresh s n (Line.foreign ∷ ls) = (s, n, false)
  import_jsonl fresh s n (Line.numeric e ∷ ls) =
      let (t, saved) = save s (with_id (fresh n) e) in
      let rest = import_jsonl fresh t (n + 1) ls in if saved then rest else (t, n, false)
