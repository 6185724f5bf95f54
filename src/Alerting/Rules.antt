-- ===== src/Alerting/Rules.antt =====
-- The rule engine of internal/alerting/alerting.go.
pub mod Fires
use redis_meter.Base.{
  ℕ, zero, suc, ◌+◌, ◌≡◌, Bool, true, false, not, ◌||◌, Option, none, some, List, [], ◌∷◌, ◌++◌,
  String, str_eq, if◌then◌else◌, length, select,
}
use redis_meter.Base.Int.{ℤ, pos, add}
use redis_meter.Base.Dict.{Dict}
use redis_meter.Base.Text.{Text, codes}
use redis_meter.Alerting.Model.{
  Floats, Summary, BenchmarkRun, Alert, AlertManager, Sent, World, send_alert,
}
use redis_meter.Alerting.Numerals.{int_to_str}

pub record RuleAction : Type 0 where
  pub kind : String
  pub notifiers : List String
  pub webhook_url : String
  pub template : String

module _ (F : Floats) where
  pub record RuleCondition : Type 0 where
    pub metric : String
    pub operator : String
    pub value : F.Float
    pub value_type : String

  pub record AlertRule : Type 0 where
    pub name : String
    pub description : String
    pub kind : String
    pub enabled : Bool
    pub severity : String
    pub conditions : List RuleCondition
    pub actions : List RuleAction
    pub tags : Dict String

  unfoldable pub add_rule : List AlertRule → AlertRule → List AlertRule
  add_rule rules rule = rules ++ (rule ∷ [])

  unfoldable pub remove_rule : List AlertRule → String → List AlertRule
  remove_rule rules name = select (λ r. not (str_eq r.name name)) rules

  abbrev pub one_of : String → String → String → Bool
  one_of metric a b = str_eq metric a || str_eq metric b

  unfoldable pub metric_of : Summary F → String → F.Float
  metric_of s metric =
      if one_of metric "throughput" "ops_per_second"
      then s.ops_per_second
      else if one_of metric "avg_latency" "avg_latency_ms"
      then s.avg_latency_ms
      else if one_of metric "p50_latency" "p50_latency_ms"
      then s.p50_latency_ms
      else if one_of metric "p90_latency" "p90_latency_ms"
      then s.p90_latency_ms
      else if one_of metric "p95_latency" "p95_latency_ms"
      then s.p95_latency_ms
      else if one_of metric "p99_latency" "p99_latency_ms"
      then s.p99_latency_ms
      else if str_eq metric "error_rate"
      then s.error_rate
      else if str_eq metric "errors"
      then F.of_int s.errors
      else F.nought

  abbrev pub get_metric_value : BenchmarkRun F → String → F.Float
  get_metric_value run metric = elim run.summary [ none ↦ F.nought | some s ↦ metric_of s metric ]

  unfoldable pub evaluate_condition : RuleCondition → F.Float → Bool
  evaluate_condition c value =
      if str_eq c.operator "gt"
      then F.less c.value value
      else if str_eq c.operator "lt"
      then F.less value c.value
      else if str_eq c.operator "gte"
      then F.less c.value value || F.equal value c.value
      else if str_eq c.operator "lte"
      then F.less value c.value || F.equal value c.value
      else if str_eq c.operator "eq"
      then F.equal value c.value
      else if str_eq c.operator "neq"
      then not (F.equal value c.value)
      else false

  -- The loop over the conditions.
  unfoldable pub all_hold : BenchmarkRun F → List RuleCondition → Bool
  all_hold run [] = true
  all_hold run (c ∷ cs) =
      let rest = all_hold run cs in
      if not (evaluate_condition c (get_metric_value run c.metric)) then false else rest

  abbrev pub has_conditions : List RuleCondition → Bool
  has_conditions [] = false
  has_conditions (c ∷ cs) = true

  unfoldable pub evaluate_rule : AlertRule → BenchmarkRun F → Bool
  evaluate_rule rule run = elim run.summary [
    | none ↦ false
    | some s ↦ if all_hold run rule.conditions then has_conditions rule.conditions else false
  ]

  -- The engine's part of the state: the manager, the deliveries and `alertCounter`.
  pub record Engine : Type 0 where
    pub rules : List AlertRule
    pub manager : AlertManager F
    pub sent : Sent F
    pub alert_counter : ℤ

  module _ (w : World F) (format : ℕ → Text) where
    unfoldable pub execute_action : Engine → RuleAction → Alert F → Engine
    execute_action e action a =
        if str_eq action.kind "notify"
        then record e { sent = (send_alert F w e.manager a action.notifiers e.sent).0 }
        else e

    -- The error of an action is dropped.
    unfoldable pub execute_actions : Engine → List RuleAction → Alert F → Engine
    execute_actions e [] a = e
    execute_actions e (action ∷ rest) a = execute_actions (execute_action e action a) rest a

    -- The alert of a rule, with the next number.
    unfoldable pub alert_of : Engine → AlertRule → BenchmarkRun F → Alert F
    alert_of e rule run =
        let now = w.time (length e.sent) in
        record {
          id =
              codes "alert-"
              ++ (format now ++ (codes "-" ++ int_to_str (add e.alert_counter (pos 1))));
          kind = rule.kind;
          severity = rule.severity;
          title = rule.name;
          message = rule.description;
          run = some run;
          timestamp = now;
          tags = rule.tags;
          source = "rule_engine";
        }

    abbrev pub counted : Engine → Engine
    counted e = record e { alert_counter = add e.alert_counter (pos 1) }

    unfoldable pub evaluate_rules :
        Engine → List AlertRule → BenchmarkRun F → Engine × List (Alert F)
    evaluate_rules e [] run = (e, [])
    evaluate_rules e (rule ∷ rest) run = elim rule.enabled [
      | false ↦ evaluate_rules e rest run
      | true ↦ elim (evaluate_rule rule run) [
        | false ↦ evaluate_rules e rest run
        | true ↦
            let a = alert_of e rule run in
            let (u, alerts) =
              evaluate_rules (execute_actions (counted e) rule.actions a) rest run in
            (u, a ∷ alerts)
      ]
    ]

    unfoldable pub evaluate : Engine → BenchmarkRun F → Engine × List (Alert F)
    evaluate e run = evaluate_rules e e.rules run
