-- ===== src/Alerting/Rules/Fires.antt =====
-- Which rules of internal/alerting/alerting.go make an alert.
use redis_meter.Base.{
  ℕ, ◌≡◌, refl, ap, sym, ◌≢◌, ◌↔◌, Bool, true, Bool-cases, Option-cases, inl, inr, ◌&&◌, Option,
  none, some, List, [], ◌∷◌, map, String, select, All,
}
use mathlib.Core.Path.{subst}
use redis_meter.Base.Text.{Text}
use redis_meter.Alerting.Model.{Floats, Summary, BenchmarkRun, Alert, World}
use redis_meter.Alerting.Rules.{
  RuleCondition, AlertRule, Engine, execute_actions, alert_of, counted, metric_of,
  evaluate_condition, all_hold, has_conditions, evaluate_rule, evaluate_rules, evaluate,
}

module _ (F : Floats) where
  -- The condition holds of the run's metric.
  abbrev pub Holds : Summary F → RuleCondition F → Type 0
  Holds s c = evaluate_condition F c (metric_of F s c.metric) ≡ true

  all_hold-All :
      (run : BenchmarkRun F) (s : Summary F) (cs : List (RuleCondition F))
      → run.summary ≡ some s
      → (all_hold F run cs ≡ true) ↔ All (Holds s) cs
  unfolding all_hold
  all_hold-All run s [] h = (λ e. tt, λ a. refl)
  all_hold-All run s (c ∷ cs) h =
      elim (Bool-cases (evaluate_condition F c (metric_of F s c.metric))) [
        | inl e ↦
            rw (h, e, all_hold)
              (λ t. (refl, (all_hold-All run s cs h).0 t), λ a. (all_hold-All run s cs h).1 a.1)
        | inr e ↦ rw (h, e, all_hold) (λ t. cc, λ a. cc)
      ]

  abbrev summary_or : Summary F → Option (Summary F) → Summary F
  summary_or s none = s
  summary_or s (some v) = v

  nonempty : (cs : List (RuleCondition F)) → (has_conditions F cs ≡ true) ↔ (cs ≢ [])
  nonempty [] = (λ e. cc, λ n. absurd (n refl))
  nonempty (c ∷ cs) = (λ e n. cc, λ n. refl)

  -- A rule triggers just if the run has a summary, the rule has a condition, and each of its
  -- conditions holds of its metric.
  pub evaluate_rule_iff :
      (rule : AlertRule F) (run : BenchmarkRun F)
      → (evaluate_rule F rule run ≡ true) ↔ (
          (s : Summary F) × (run.summary ≡ some s)
          × (rule.conditions ≢ [])
          × All (Holds s) rule.conditions)
  unfolding evaluate_rule
  evaluate_rule_iff rule run = elim (Option-cases run.summary) [
    | inl n ↦ rw (n, evaluate_rule) (λ t. cc, λ (s, e, c, a). cc)
    | inr (s, h) ↦
        let back = λ (v : Summary F) (e : some s ≡ some v) (a : All (Holds v) rule.conditions).
          subst (λ x. All (Holds x) rule.conditions) (sym (ap (summary_or s) e)) a in
        let (to, from) = all_hold-All run s rule.conditions h in
        elim (Bool-cases (all_hold F run rule.conditions)) [
          | inr quiet ↦
              rw (h, quiet, evaluate_rule)
                (λ t. cc, λ (v, e, c, a). absurd (cc (quiet, from (back v e a))))
          | inl all ↦
              rw (h, all, evaluate_rule)
                (
                  λ t. (s, refl, (nonempty rule.conditions).0 t, to all),
                  λ (v, e, c, a). (nonempty rule.conditions).1 c,
                )
        ]
  ]

  -- What an alert takes from its rule.
  abbrev pub alert_line : Alert F → String × String × String × String
  alert_line a = (a.kind, a.severity, a.title, a.message)

  abbrev pub rule_line : AlertRule F → String × String × String × String
  rule_line r = (r.kind, r.severity, r.name, r.description)

  abbrev pub fires : BenchmarkRun F → AlertRule F → Bool
  fires run r = r.enabled && evaluate_rule F r run

  module _ (w : World F) (format : ℕ → Text) where
    evaluate_rules-lines :
        (rules : List (AlertRule F)) (e : Engine F) (run : BenchmarkRun F)
        → map alert_line (evaluate_rules F w format e rules run).1
          ≡ map rule_line (select (fires run) rules)
    unfolding evaluate_rules select alert_of evaluate_rule
    evaluate_rules-lines [] e run = refl
    evaluate_rules-lines (r ∷ rules) e run = elim (Bool-cases r.enabled) [
      | inr off ↦ rw (off, evaluate_rules) (evaluate_rules-lines rules e run)
      | inl on ↦ elim (Bool-cases (evaluate_rule F r run)) [
        | inr quiet ↦ rw (on, quiet, evaluate_rules) (evaluate_rules-lines rules e run)
        | inl fired ↦
            let u =
              execute_actions F w format (counted F w format e) r.actions
                (alert_of F w format e r run) in
            rw (on, fired, evaluate_rules)
              (ap (◌∷◌ (rule_line r)) (evaluate_rules-lines rules u run))
      ]
    ]

    -- `Evaluate` returns an alert for each rule that is enabled and triggers, in the order of the
    -- rules, with the rule's type, severity, name and description.
    pub evaluate_lines :
        (e : Engine F) (run : BenchmarkRun F)
        → map alert_line (evaluate F w format e run).1 ≡ map rule_line (select (fires run) e.rules)
    unfolding evaluate
    evaluate_lines e run = evaluate_rules-lines e.rules e run
