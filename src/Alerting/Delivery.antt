-- ===== src/Alerting/Delivery.antt =====
-- Who is sent what by the alert manager of internal/alerting/alerting.go.
use redis_meter.Base.{
  ℕ, zero, suc, ◌≡◌, refl, ap, ◌∙◌, sym, Option-cases, inl, inr, Option, none, List, [], ◌∷◌, ◌++◌,
  String, if◌then◌else◌, length, length-append, arith,
}
use redis_meter.Base.Dict.{get, is_some}
use redis_meter.Alerting.Model.{
  Floats, World, Message, AlertManager, Sent, targets, last_error, deliver, Alert, send_alert,
  send_alerts, stamp,
}

append_assoc {ℓ} : {A : Type ℓ} (xs ys zs : List A) → (xs ++ ys) ++ zs ≡ xs ++ (ys ++ zs)
append_assoc [] ys zs = refl
append_assoc (x ∷ xs) ys zs = ap (◌∷◌ x) (append_assoc xs ys zs)

append_nil {ℓ} : {A : Type ℓ} (xs : List A) → xs ++ [] ≡ xs
append_nil [] = refl
append_nil (x ∷ xs) = ap (◌∷◌ x) (append_nil xs)

module _ (F : Floats) (w : World F) (m : AlertManager F) where
  -- The names that are registered, in order, each with the message.
  pub mail : Message F → List String → Sent F
  mail message [] = []
  mail message (n ∷ ns) =
      let rest = mail message ns in
      if is_some (get m.notifiers n) then (n, message) ∷ rest else rest

  deliver-mail :
      (ns : List String) (message : Message F) (sent : Sent F) (err : Option String)
      → (deliver F w m ns message sent err).0 ≡ sent ++ mail message ns
  unfolding deliver mail
  deliver-mail [] message sent err = sym (append_nil sent)
  deliver-mail (n ∷ ns) message sent err = elim (Option-cases (get m.notifiers n)) [
    | inl e ↦ rw (e, deliver) (deliver-mail ns message sent err)
    | inr (v, e) ↦
        rw (e, deliver)
          (deliver-mail ns message (sent ++ ((n, message) ∷ [])) _
            ∙ append_assoc sent ((n, message) ∷ []) (mail message ns))
  ]

  -- The error left after `k` deliveries from the delivery `i` on: that of the last that failed.
  pub last_failure : ℕ → ℕ → Option String → Option String
  last_failure i zero err = err
  last_failure i (suc k) err = last_failure (suc i) k (last_error F w (w.answer i) err)

  deliver_error :
      (ns : List String) (message : Message F) (sent : Sent F) (err : Option String)
      → (deliver F w m ns message sent err).1
        ≡ last_failure (length sent) (length (mail message ns)) err
  unfolding deliver mail last_failure
  deliver_error [] message sent err = refl
  deliver_error (n ∷ ns) message sent err = elim (Option-cases (get m.notifiers n)) [
    | inl e ↦ rw (e, deliver) (deliver_error ns message sent err)
    | inr (v, e) ↦
        let next = last_error F w (w.answer (length sent)) err in
        let one_more : length (sent ++ ((n, message) ∷ [])) ≡ suc (length sent) =
          length-append sent ((n, message) ∷ []) ∙ omega arith in
        rw (e, deliver)
          (deliver_error ns message (sent ++ ((n, message) ∷ [])) next
            ∙ ap (λ i. last_failure i (length (mail message ns)) next) one_more)
  ]

  -- `SendAlert` and `SendAlerts` send their message to each registered notifier among those asked
  -- for, the default ones if none is asked for, or all, once for each time it is named and in this
  -- order, whatever fails; their error is that of the last delivery that failed.
  pub send_effect :
      (a : Alert F) (alerts : List (Alert F)) (asked : List String) (sent : Sent F)
      → let stamped = Message.one (stamp F w (w.time (length sent)) a) in
        let one = mail stamped (targets F m asked) in
        let some_at_once = mail (Message.batch alerts) (targets F m asked) in
        (send_alert F w m a asked sent
          ≡ (sent ++ one, last_failure (length sent) (length one) none))
        × (send_alerts F w m alerts asked sent
            ≡ (sent ++ some_at_once, last_failure (length sent) (length some_at_once) none))
  unfolding send_alert send_alerts
  send_effect a alerts asked sent =
      let stamped = Message.one (stamp F w (w.time (length sent)) a) in
      let names = targets F m asked in
      (
        λ i. (deliver-mail names stamped sent none i, deliver_error names stamped sent none i),
        λ i. (
          deliver-mail names (Message.batch alerts) sent none i,
          deliver_error names (Message.batch alerts) sent none i,
        ),
      )
