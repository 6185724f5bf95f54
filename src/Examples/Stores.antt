-- ===== src/Examples/Stores.antt =====
-- The theorems on internal/task/store.go at a store with one task.
use redis_meter.Base.{◌≡◌, refl, true, false, none, some, []}
use redis_meter.Base.Int.{pos, int_lt}
use redis_meter.Base.Dict.{get, HasDistinctKeys}
use redis_meter.TaskStore.Model.{Store, RemoveOutcome, update, get_task, delete, view, new_store}
use redis_meter.TaskStore.View.{get_task_isolated, delete_effect}
use redis_meter.TaskStore.History.{Change, History, history_survives_restart}
use redis_meter.TaskStore.Query.{TaskFilter}
use redis_meter.TaskStore.Archive.{archive}
use redis_meter.TaskStore.Retention.{archive_effect}
use redis_meter.Examples.Data.{
  nightly, finished_task, shop, store_with, shop-IsWellFormed, shop_shows, shop-IsSound,
}

get_task_isolated_example :
    view (update (get_task shop "t1").0 1 finished_task) "t1" ≡ view shop "t1"
get_task_isolated_example =
    (get_task_isolated shop "t1" nightly finished_task "t1" shop-IsWellFormed shop_shows).2

delete_effect_example : view (delete shop "t1" RemoveOutcome.absent).0 "t1" ≡ none
delete_effect_example = (delete_effect shop "t1" "t1" RemoveOutcome.absent).1

abbrev gone : Store
gone = (delete shop "t1" RemoveOutcome.removed).0

erased : History shop gone
erased = History.next History.start (Change.erase shop "t1" RemoveOutcome.removed)

history_survives_restart_example : view (new_store gone.disk []) "t1" ≡ view gone "t1"
history_survives_restart_example = history_survives_restart shop gone [] "t1" shop-IsSound erased

finished_shows : view (store_with finished_task) "t1" ≡ some finished_task
unfolding view get
finished_shows = refl

one_key : HasDistinctKeys (store_with finished_task).cache
one_key = (unfold get in refl, tt)

archive_effect_example :
    view (archive (λ n. true) (λ n. 7) 50 (store_with finished_task)).0 "t1" ≡ none
unfolding redis_meter.Task.Status.is_terminal
archive_effect_example =
    (archive_effect (λ n. true) (λ n. 7) 50 (store_with finished_task) "t1" finished_task one_key
      finished_shows).0

abbrev newest : TaskFilter
newest = record { statuses = []; tool = ""; tags = []; limit = pos 1 }

no_limit : (g : TaskFilter) → none ≡ some g → int_lt (pos 0) g.limit ≡ false
no_limit g e = cc
