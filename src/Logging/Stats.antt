-- ===== src/Logging/Stats.antt =====
-- internal/logging/json_store.go: GetStats, but for the sizes of the files, and the queries with a
-- fixed filter, GetEntriesForBenchmark, GetEntriesForInfra, GetRecentErrors and SearchLogs.
use redis_meter.Base.{ℕ, ◌+◌, Bool, Option, none, some, List, [], ◌∷◌, String, ltb, if◌then◌else◌}
use redis_meter.Base.Dict.{Dict, get, put}
use redis_meter.Base.Int.{ℤ, pos}
use redis_meter.Base.Text.{Text}
use redis_meter.Logging.Model.{Entry, QueryFilter, JsonStore}
use redis_meter.Logging.Reading.{query}

-- `none` is Go's zero time.
pub record StoreStats : Type 0 where
  pub total_entries : ℕ
  pub level_counts : Dict ℕ
  pub source_counts : Dict ℕ
  pub oldest_entry : Option ℕ
  pub newest_entry : Option ℕ

abbrev pub count_one : Option ℕ → ℕ
count_one none = 1
count_one (some n) = n + 1

abbrev pub older : Option ℕ → ℕ → Option ℕ
older none t = some t
older (some o) t = some (if ltb t o then t else o)

abbrev pub newer : Option ℕ → ℕ → Option ℕ
newer none t = some t
newer (some n) t = some (if ltb n t then t else n)

unfoldable pub count_entry : StoreStats → Entry → StoreStats
count_entry s e = record {
  total_entries = s.total_entries + 1;
  level_counts = put s.level_counts e.level (count_one (get s.level_counts e.level));
  source_counts = put s.source_counts e.source (count_one (get s.source_counts e.source));
  oldest_entry = older s.oldest_entry e.timestamp;
  newest_entry = newer s.newest_entry e.timestamp;
}

unfoldable pub count_entries : StoreStats → List Entry → StoreStats
count_entries s [] = s
count_entries s (e ∷ es) = count_entries (count_entry s e) es

unfoldable pub get_stats : JsonStore → StoreStats
get_stats s =
    count_entries
      (record {
        total_entries = 0;
        level_counts = [];
        source_counts = [];
        oldest_entry = none;
        newest_entry = none;
      })
      s.cache

abbrev pub empty_filter : QueryFilter
empty_filter = record {
  level = "";
  source = "";
  operation = [];
  benchmark_id = "";
  infra_id = "";
  since = none;
  until = none;
  search = [];
  limit = pos 0;
  offset = pos 0;
}

module _ (opens : ℕ → Bool) (s : JsonStore) where
  unfoldable pub get_entries_for_benchmark : String → List Entry
  get_entries_for_benchmark id = query opens s (some (record empty_filter { benchmark_id = id }))

  unfoldable pub get_entries_for_infra : String → List Entry
  get_entries_for_infra id = query opens s (some (record empty_filter { infra_id = id }))

  unfoldable pub get_recent_errors : ℤ → List Entry
  get_recent_errors limit =
      query opens s (some (record empty_filter { level = "ERROR"; limit = limit }))

  unfoldable pub search_logs : Text → ℤ → List Entry
  search_logs term limit =
      query opens s (some (record empty_filter { search = term; limit = limit }))
