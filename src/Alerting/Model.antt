-- ===== src/Alerting/Model.antt =====
-- The alerts, the notifiers' registry and the alert manager of internal/alerting/alerting.go. A
-- notifier is another system: the answer to each delivery is a parameter, and the deliveries are
-- recorded in order. Only the names of a notifier's methods matter here, so the registry holds the
-- notifiers' numbers. A run and its details are carried along unread, but for its summary.
use redis_meter.Base.{
  ℕ, Bool, Option, none, some, List, [], ◌∷◌, ◌++◌, String, ◌==◌, if◌then◌else◌, length,
}
use redis_meter.Base.Int.{ℤ}
use redis_meter.Base.Dict.{Dict, get, put}
use redis_meter.Base.Text.{Text}

-- What the rules need of `float64`: its tests and two conversions.
pub record Floats : Type 1 where
  pub Float : Type 0
  pub less : Float → Float → Bool
  pub equal : Float → Float → Bool
  pub nought : Float
  pub of_int : ℤ → Float

module _ (F : Floats) where
  pub record Summary : Type 0 where
    pub ops_per_second : F.Float
    pub avg_latency_ms : F.Float
    pub p50_latency_ms : F.Float
    pub p90_latency_ms : F.Float
    pub p95_latency_ms : F.Float
    pub p99_latency_ms : F.Float
    pub error_rate : F.Float
    pub errors : ℤ

  -- `summary` is `none` if the run has no results or they have no summary.
  pub record BenchmarkRun : Type 0 where
    pub id : String
    pub summary : Option Summary

  -- A time is in nanoseconds, 0 is the zero time.
  pub record Alert : Type 0 where
    pub id : Text
    pub kind : String
    pub severity : String
    pub title : String
    pub message : String
    pub run : Option BenchmarkRun
    pub timestamp : ℕ
    pub tags : Dict String
    pub source : String

  -- What is sent to a notifier: one alert, or some at once.
  pub data Message : Type 0 where
    one : Alert → Message
    batch : List Alert → Message

  -- The deliveries so far: the notifier's name and what it was sent.
  abbrev pub Sent : Type 0
  Sent = List (String × Message)

  -- The machine: the time at a count of deliveries, and what the notifiers answer to each.
  pub record World : Type 0 where
    pub time : ℕ → ℕ
    pub answer : ℕ → Option String

  pub record AlertManager : Type 0 where
    pub notifiers : Dict ℕ
    pub default_notifiers : List String

  abbrev pub names : Dict ℕ → List String
  names [] = []
  names ((n, v) ∷ d) = n ∷ names d

  unfoldable pub register_notifier : AlertManager → String → ℕ → AlertManager
  register_notifier m name notifier = record m { notifiers = put m.notifiers name notifier }

  abbrev pub or_names : List String → List String → List String
  or_names [] other = other
  or_names (n ∷ ns) other = n ∷ ns

  -- The notifiers that are asked for, or the default ones, or all.
  abbrev pub targets : AlertManager → List String → List String
  targets m asked = or_names (or_names asked m.default_notifiers) (names m.notifiers)

  module _ (w : World) where
    abbrev pub last_error : Option String → Option String → Option String
    last_error none old = old
    last_error (some e) old = some e

    -- The loop over the names: one that is not registered is skipped.
    unfoldable pub deliver :
        AlertManager → List String → Message → Sent → Option String → Sent × Option String
    deliver m [] message sent err = (sent, err)
    deliver m (name ∷ rest) message sent err = elim (get m.notifiers name) [
      | none ↦ deliver m rest message sent err
      | some notifier ↦
          deliver m rest message (sent ++ ((name, message) ∷ []))
            (last_error (w.answer (length sent)) err)
    ]

    abbrev pub stamp : ℕ → Alert → Alert
    stamp now a = if a.timestamp == 0 then record a { timestamp = now } else a

    unfoldable pub send_alert : AlertManager → Alert → List String → Sent → Sent × Option String
    send_alert m a asked sent =
        deliver m (targets m asked) (Message.one (stamp (w.time (length sent)) a)) sent none

    unfoldable pub send_alerts :
        AlertManager → List Alert → List String → Sent → Sent × Option String
    send_alerts m alerts asked sent = deliver m (targets m asked) (Message.batch alerts) sent none
