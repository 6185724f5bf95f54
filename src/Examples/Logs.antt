-- ===== src/Examples/Logs.antt =====
-- The theorems on internal/logging at a store with two entries in its files.
use redis_meter.Base.{
  ℕ, ◌+◌, ◌≤◌, ◌≡◌, refl, Bool, true, some, none, List, [], ◌∷◌, String, length, select,
}
use redis_meter.Base.Int.{pos}
use redis_meter.Base.Text.{codes, contains_text, starts_with}
use redis_meter.Base.Sort.{sort}
use redis_meter.Logging.Model.{Entry, Line, QueryFilter, JsonStore, day, append_to, load_file}
use redis_meter.Logging.Writing.{
  new_json_store, load_recent, newest_first, save, flush, flush_entries, write_all, last_of,
  take_from, take_entry, close,
}
use redis_meter.Logging.Reading.{
  matches_filter, candidates, query, window, filter_entries, to_lower,
}
use redis_meter.Logging.Deleting.{
  kept, old_count, is_old, delete_files, delete_file, truncate_file, delete,
}
use redis_meter.Logging.Calls.{Call, step, run, recorded}
use redis_meter.Logging.Complete.{tally, logged, everything, close_complete}
use redis_meter.Logging.Own.{AreOwn, delete_own_effect}
use redis_meter.Logging.Restart.{restart_shows_nothing}
use redis_meter.Logging.Queries.{at_most, query_effect}
use redis_meter.Logging.Bounds.{cache_bounded}

abbrev entry : ℕ → String → Entry
entry time level = record {
  id = codes "e";
  timestamp = time;
  level = level;
  source = "cli";
  operation = codes "deploy";
  message = codes "Started";
  context = [];
  benchmark_id = "";
  infra_id = "";
  error = "";
  duration = pos 0;
}

abbrev one_day : ℕ
one_day = 86400000000000

abbrev first : Entry
first = entry 5 "ERROR"

abbrev second : Entry
second = entry (one_day + 7) "INFO"

abbrev third : Entry
third = entry (one_day + 9) "ERROR"

abbrev yes : ℕ → Bool
yes d = true

abbrev every : Entry → Bool
every e = true

-- The files of another program, whose durations are numbers, and those that the store wrote.
abbrev logs : JsonStore
logs = new_json_store yes ((0, Line.numeric first ∷ []) ∷ (1, Line.numeric second ∷ []) ∷ [])

abbrev own_logs : JsonStore
own_logs = record logs {
  files = (0, Line.marshalled first ∷ []) ∷ (1, Line.marshalled second ∷ []) ∷ [];
}

abbrev errors : QueryFilter
errors = record {
  level = "ERROR";
  source = "";
  operation = [];
  benchmark_id = "";
  infra_id = "";
  since = none;
  until = none;
  search = codes "start";
  limit = pos 0;
  offset = pos 0;
}

abbrev calls : List Call
calls = Call.saves third ∷ Call.takes ∷ Call.ticks ∷ Call.saves first ∷ []

-- A search does not look at upper and lower case.
errors_found : query yes logs (some errors) ≡ first ∷ []
unfolding query window sort filter_entries select candidates new_json_store load_recent newest_first
    matches_filter contains_text to_lower starts_with load_file
errors_found = refl

close_complete_example :
    tally every (logged (close yes every (run yes every logs calls)).files)
    ≡ tally every (recorded calls) + tally every (everything logs)
close_complete_example = close_complete every every logs calls (λ e h. refl)

own : AreOwn own_logs.files
own = ((tt, tt), ((tt, tt), tt))

delete_own_effect_example :
    (delete (λ d. true) (λ d. true) every own_logs one_day).1 ≡ old_count one_day own_logs.cache
delete_own_effect_example = (delete_own_effect every own_logs one_day own).2

restart_shows_nothing_example :
    query yes (new_json_store yes (close yes every (run yes every own_logs calls)).files) none ≡ []
restart_shows_nothing_example = (restart_shows_nothing yes yes every own_logs calls none own).1

abbrev started : JsonStore
started = new_json_store yes []

-- An old and a new entry, both written: the old one counts once, by the cache.
abbrev kept_one : JsonStore × ℕ
kept_one =
    delete yes yes every
      (run yes every started
        (Call.saves first ∷ Call.saves third ∷ Call.takes ∷ Call.takes ∷ Call.ticks ∷ []))
      one_day

deleted_one : (kept_one.1 ≡ 1) × (kept_one.0.cache ≡ third ∷ [])
unfolding delete old_count select run step flush flush_entries take_entry take_from save
    new_json_store last_of load_recent newest_first is_old delete_files write_all append_to
    delete_file kept truncate_file day load_file
deleted_one = (refl, refl)

query_effect_example :
    length (query yes logs (some errors))
    ≤ at_most errors.limit (length (query yes logs (some errors)))
query_effect_example = (query_effect yes logs errors).2

cache_bounded_example :
    length (run yes every (new_json_store yes ((0, Line.numeric first ∷ []) ∷ [])) calls).cache
    ≤ 10000
cache_bounded_example = cache_bounded yes every ((0, Line.numeric first ∷ []) ∷ []) calls
