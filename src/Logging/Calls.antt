-- ===== src/Logging/Calls.antt =====
-- The calls that write to the store of internal/logging/json_store.go, in any order.
use redis_meter.Base.{ℕ, Bool, List, [], ◌∷◌}
use redis_meter.Logging.Model.{Entry, JsonStore}
use redis_meter.Logging.Writing.{save, flush, take_entry}

-- A save, an entry that the background writer takes, a tick of its clock.
pub data Call : Type 0 where
  saves : Entry → Call
  takes ticks : Call

module _ (opens : ℕ → Bool) (encodes : Entry → Bool) where
  unfoldable pub step : JsonStore → Call → JsonStore
  step s (Call.saves e) = (save opens encodes s e).0
  step s Call.takes = take_entry opens encodes s
  step s Call.ticks = flush opens encodes s

  unfoldable pub run : JsonStore → List Call → JsonStore
  run s [] = s
  run s (c ∷ cs) = run (step s c) cs

-- The entries that are saved.
unfoldable pub recorded : List Call → List Entry
recorded [] = []
recorded (Call.saves e ∷ cs) = e ∷ recorded cs
recorded (Call.takes ∷ cs) = recorded cs
recorded (Call.ticks ∷ cs) = recorded cs
