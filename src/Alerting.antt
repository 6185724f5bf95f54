-- ===== src/Alerting.antt =====
-- internal/alerting/alerting.go: the notifiers' registry, the alert manager and the rule engine.
pub mod Model
pub mod Delivery
pub mod Rules
pub mod Numerals
