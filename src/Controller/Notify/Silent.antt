-- ===== src/Controller/Notify/Silent.antt =====
-- The notifications of the reconciler do not leave the process.
use cert_rotator.Base.{String, Bool, List, string_eq, ◌≡◌, refl, string_dec}
use cert_rotator.Api.{CertRotationConfigSpec}
use cert_rotator.Host.{Env, Error, World, Event, Exec, fail, now, next_call}
use cert_rotator.Host.Keeps.{Keeps, Keeps-bind, Keeps-gets, Keeps-log_error, keeps_rules}
use cert_rotator.Notifier
use cert_rotator.Notifier.{Notifier, send_smtp, send_slack, via, notify, notify_critical}
use cert_rotator.Controller.Notify.{
  build_notifier, send_renewal_success, send_rollback_notification, send_critical_alert,
}

-- The outside has seen the events of this list.
record TraceIs (events : List Event) (w : World) : Type 0 where
  same : w.trace ≡ events

next_call-TraceIs : {events : List Event} → Keeps (TraceIs events) next_call
unfolding next_call
next_call-TraceIs = record { at = λ w h. record { same = h.same } }

-- They do nothing but ask the clock: what that keeps, they keep.
module _ {P : World → Type 0} (counted : Keeps P next_call) (env : Env) where
  now-Keeps : Keeps P (now env)
  unfolding now
  now-Keeps = search (keeps_rules, counted)

  module _ (spec : CertRotationConfigSpec) (e : Notifier.Event) where
    send_smtp-Keeps : Keeps P (send_smtp env (build_notifier spec) e)
    unfolding send_smtp build_notifier fail string_eq string_dec
    send_smtp-Keeps = record { at = λ w h. h }

    send_slack-Keeps : Keeps P (send_slack env (build_notifier spec) e)
    unfolding send_slack build_notifier fail string_eq string_dec
    send_slack-Keeps = record { at = λ w h. h }

    via-Keeps :
        (enabled : Bool) (channel : String) (send : Exec (Unit {0})) (errs : List String)
        → Keeps P send
        → Keeps P (via enabled channel send errs)
    unfolding via
    via-Keeps enabled channel send errs k = search keeps_rules

  notify-Keeps :
      (spec : CertRotationConfigSpec) (e : Notifier.Event)
      → Keeps P (notify env (build_notifier spec) e)
  unfolding notify
  notify-Keeps spec e =
      search (keeps_rules, now-Keeps, via-Keeps, send_smtp-Keeps, send_slack-Keeps) depth 8

  pub renewal_success-Keeps :
      (node : String) (spec : CertRotationConfigSpec) → Keeps P (send_renewal_success env node spec)
  unfolding send_renewal_success
  renewal_success-Keeps node spec = Keeps-log_error _ (notify-Keeps spec _)

  pub rollback_notification-Keeps :
      (node : String) (spec : CertRotationConfigSpec) (e : Error)
      → Keeps P (send_rollback_notification env node spec e)
  unfolding send_rollback_notification
  rollback_notification-Keeps node spec e =
      Keeps-bind _ _ (Keeps-gets _) λ ns. Keeps-log_error _ (notify-Keeps spec _)

  pub critical_alert-Keeps :
      (node : String) (spec : CertRotationConfigSpec) (message : String)
      → Keeps P (send_critical_alert env node spec message)
  unfolding send_critical_alert notify_critical
  critical_alert-Keeps node spec message =
      search (keeps_rules, now-Keeps, send_smtp-Keeps, send_slack-Keeps) depth 8

-- No notification of the reconciler reaches the outside, whatever the configuration enables: after a
-- renewal, after a rollback and on a critical failure nothing is mailed and nothing is posted.
pub notifications_silent :
    (env : Env) (node message : String) (spec : CertRotationConfigSpec) (e : Error) (w : World)
    → ((send_renewal_success env node spec w).1.trace ≡ w.trace)
      × ((send_rollback_notification env node spec e w).1.trace ≡ w.trace)
      × ((send_critical_alert env node spec message w).1.trace ≡ w.trace)
notifications_silent env node message spec e w =
    let k = λ (A : Type 0) (m : Exec A) (h : Keeps (TraceIs w.trace) m).
      (h.at w (record { same = refl })).same in
    (
      k _ _ (renewal_success-Keeps next_call-TraceIs env node spec),
      k _ _ (rollback_notification-Keeps next_call-TraceIs env node spec e),
      k _ _ (critical_alert-Keeps next_call-TraceIs env node spec message),
    )
