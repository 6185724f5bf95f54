-- ===== src/TaskStore/Watch.antt =====
-- The polling `Watcher` of internal/task/store.go: one round of `poll`, and the events that the
-- callbacks see.
use redis_meter.Base.{
  Bool, true, false, map, ℕ, Option, none, some, List, [], ◌∷◌, ◌++◌, String, ltb, if◌then◌else◌,
}
use redis_meter.Base.Dict.{Dict, get, put, is_some}
use redis_meter.Task.Model.{Task}
use redis_meter.TaskStore.Model.{Store}

pub data Notice : Type 0 where
  created updated : String → Notice

-- `lastState[id] = task.LastUpdatedAt` for each task of the cache.
unfoldable pub snapshot : (ℕ → Task) → Dict ℕ → Dict ℕ → Dict ℕ
snapshot object last [] = last
snapshot object last ((id, p) ∷ rest) =
    snapshot object (put last id ((object p).last_updated_at)) rest

notice : Option ℕ → String → ℕ → List Notice
notice none id at = Notice.created id ∷ []
notice (some t) id at = if ltb t at then Notice.updated id ∷ [] else []

-- The events of one round, in the order of the visit: `last` is updated as the loop goes.
scan : (ℕ → Task) → Dict ℕ → Dict ℕ → List Notice
unfolding notice
scan object last [] = []
scan object last ((id, p) ∷ rest) =
    notice (get last id) id ((object p).last_updated_at)
    ++ scan object (put last id ((object p).last_updated_at)) rest

-- Tasks that are gone from the cache are forgotten.
forget : Dict ℕ → Dict ℕ → Dict ℕ
forget cache [] = []
forget cache ((id, t) ∷ last) =
    let rest = forget cache last in if is_some (get cache id) then (id, t) ∷ rest else rest

-- A tick: the events, and the last state that the next tick compares with.
unfoldable pub poll_round : Store → Dict ℕ → List Notice × Dict ℕ
unfolding snapshot scan forget
poll_round s last = (scan s.object last s.cache, forget s.cache (snapshot s.object last s.cache))

-- `Watcher`: the callbacks, by number in the order of their registration, the last state that the
-- goroutine keeps, and whether `done` is closed.
pub record Watcher : Type 0 where
  pub callbacks : List ℕ
  pub last : Dict ℕ
  pub stopped : Bool

unfoldable pub watch : Store → Watcher
watch s = record { callbacks = []; last = snapshot s.object [] s.cache; stopped = false }

unfoldable pub on_change : Watcher → ℕ → Watcher
on_change w callback = record w { callbacks = w.callbacks ++ (callback ∷ []) }

unfoldable pub stop : Watcher → Watcher
stop w = record w { stopped = true }

-- `notify` for each event in turn: the calls of the callbacks.
unfoldable pub notify : List ℕ → List Notice → List (ℕ × Notice)
notify callbacks [] = []
notify callbacks (n ∷ ns) = map (λ c. (c, n)) callbacks ++ notify callbacks ns

-- What the goroutine does when its ticker ticks.
unfoldable pub tick : Watcher → Store → Watcher × List (ℕ × Notice)
tick w s =
    let (notices, last) = poll_round s w.last in
    if w.stopped then (w, []) else (record w { last = last }, notify w.callbacks notices)
