-- ===== src/Logging/Reading.antt =====
-- internal/logging/json_store.go: Query, loadEntriesInRange, filterEntries, matchesFilter and Count.
-- Upper case is that of ASCII.
use redis_meter.Base.{
  ℕ, ◌+◌, Bool, true, false, not, ◌&&◌, ◌||◌, Option, none, some, List, [], ◌∷◌, ◌++◌, map, String,
  str_eq, ltb, leb, if◌then◌else◌, length, take, drop, select,
}
use redis_meter.Base.Int.{ℤ, pos, pos_part, int_lt}
use redis_meter.Base.Sort.{sort}
use redis_meter.Base.Text.{Text, is_empty, contains_text}
use redis_meter.Logging.Model.{Entry, QueryFilter, Files, JsonStore, day, load_file}

unfoldable pub to_lower : Text → Text
to_lower t = map (λ c. if leb 65 c && leb c 90 then c + 32 else c) t

abbrev pub differs : String → String → Bool
differs wanted actual = not (str_eq wanted "") && not (str_eq actual wanted)

abbrev pub is_before : ℕ → Option ℕ → Bool
is_before t none = false
is_before t (some since) = ltb t since

abbrev pub is_after : ℕ → Option ℕ → Bool
is_after t none = false
is_after t (some until) = ltb until t

abbrev pub lacks : Text → Entry → Bool
lacks search e =
    let wanted = to_lower search in
    not (contains_text (to_lower e.message) wanted)
    && (not (contains_text (to_lower e.operation) wanted)
        && not (contains_text (to_lower e.context) wanted))

unfoldable pub matches_filter : QueryFilter → Entry → Bool
matches_filter f e =
    if differs f.level e.level
    then false
    else if differs f.source e.source
    then false
    else if not (is_empty f.operation) && not (contains_text e.operation f.operation)
    then false
    else if differs f.benchmark_id e.benchmark_id
    then false
    else if differs f.infra_id e.infra_id
    then false
    else if is_before e.timestamp f.since
    then false
    else if is_after e.timestamp f.until
    then false
    else if not (is_empty f.search) && lacks f.search e
    then false
    else true

unfoldable pub filter_entries : List Entry → Option QueryFilter → List Entry
filter_entries es none = es
filter_entries es (some f) = select (matches_filter f) es

-- The tests of a file's date against the day before `since` and the day after `until`.
abbrev pub too_old : ℕ → Option ℕ → Bool
too_old d none = false
too_old d (some since) = ltb (d + 1) (day since)

abbrev pub too_new : ℕ → Option ℕ → Bool
too_new d none = false
too_new d (some until) = ltb (day until + 1) d

unfoldable pub newest : Entry → Entry → Bool
newest a b = ltb b.timestamp a.timestamp

-- `results[:f.Limit]`
abbrev pub limited : ℤ → List Entry → List Entry
limited limit es =
    if int_lt (pos 0) limit && int_lt limit (pos (length es)) then take (pos_part limit) es else es

unfoldable pub window : Option QueryFilter → List Entry → List Entry
window none es = es
window (some f) es =
    if int_lt (pos 0) f.offset && int_lt f.offset (pos (length es))
    then limited f.limit (drop (pos_part f.offset) es)
    else (if not (int_lt f.offset (pos (length es))) then [] else limited f.limit es)

module _ (opens : ℕ → Bool) where
  unfoldable pub load_entries_in_range : Files → Option ℕ → Option ℕ → List Entry
  load_entries_in_range [] since until = []
  load_entries_in_range ((d, ls) ∷ fs) since until =
      let rest = load_entries_in_range fs since until in
      if too_old d since || too_new d until
      then rest
      else (if opens d then load_file ls ++ rest else rest)

  -- The files are read if `since` is before the first cached entry.
  abbrev pub reads_files : Option ℕ → List Entry → Bool
  reads_files none cache = false
  reads_files (some since) [] = false
  reads_files (some since) (e ∷ es) = ltb since e.timestamp

  abbrev pub since_of : Option QueryFilter → Option ℕ
  since_of none = none
  since_of (some f) = f.since

  abbrev pub until_of : Option QueryFilter → Option ℕ
  until_of none = none
  until_of (some f) = f.until

  unfoldable pub candidates : JsonStore → Option QueryFilter → List Entry
  candidates s f =
      if reads_files (since_of f) s.cache
      then load_entries_in_range s.files (since_of f) (until_of f)
      else s.cache

  unfoldable pub query : JsonStore → Option QueryFilter → List Entry
  query s f = window f (sort newest (filter_entries (candidates s f) f))

  unfoldable pub count : JsonStore → Option QueryFilter → ℕ
  count s f = length (query s f)
