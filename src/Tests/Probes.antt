-- ===== src/Tests/Probes.antt =====
-- Examples of health checks and notifications.
use cert_rotator.Base.{
  ℕ, zero, String, Bool, true, false, List, [], ◌∷◌, all, map, Option, none, some, ◌≡◌, refl, ◌≤◌,
  ◌+◌, ◌-◌, ◌*◌, if◌then◌else◌,
}
use cert_rotator.Base.Int.{pos}
use cert_rotator.Host.{
  Env, World, ok, wrap, dial, http_get, attempt, sleep, pure, next_call, emit, lift, now, send_mail,
  fail, message, ◌>>=◌,
}
use cert_rotator.HealthCheck
use cert_rotator.HealthCheck.{
  Checker, control_plane_components, check, check_each, check_all, check_all_with_retry,
  check_all_detailed, detail_each, note_check, retry, after_round, tcp_probe, http_probe, expect_ok,
}
use cert_rotator.HealthCheck.Answers.{check_all_lem, Answers, probed}
use cert_rotator.HealthCheck.Rounds.{check_all_with_retry-ok}
use cert_rotator.HealthCheck.Sleeps.{seconds, seconds-check_all_with_retry}
use cert_rotator.HealthCheck.Detailed.{check_all_detailed_lem, passed, Checked}
use cert_rotator.Notifier
use cert_rotator.Notifier.{Notifier, EventType, send_smtp, send_slack, via, note_error, notify}
use cert_rotator.Notifier.Channels.{notify-ok, Went, Mailed, Posted}
use cert_rotator.Controller.Notify.{
  send_renewal_success, send_rollback_notification, send_critical_alert,
}
use cert_rotator.Controller.Notify.Silent.{notifications_silent}
use cert_rotator.Tests.Outside.{env, with_files, spec}

abbrev checker : Checker
checker = record { node = "n1"; timeout = pos 5; dry_run = false }

abbrev start : World
start = with_files []

round_ok : check_all env checker start ≡ (ok tt, (check_all env checker start).1)
unfolding check_all check_each ◌>>=◌ wrap check tcp_probe dial next_call emit pure http_probe
    http_get lift expect_ok native.Mathlib.Decide.ℕ_discrete
round_ok = refl

check_all_lem_example :
    Answers env checker control_plane_components 0
    × ((check_all env checker start).1 ≡ probed checker control_plane_components start)
check_all_lem_example = check_all_lem env checker start (check_all env checker start).1 round_ok

retry_ok :
    check_all_with_retry env checker (pos 2) 15 start
    ≡ (ok tt, (check_all_with_retry env checker (pos 2) 15 start).1)
unfolding check_all_with_retry retry ◌>>=◌ attempt check_all check_each wrap check tcp_probe dial
    next_call emit pure http_probe http_get lift expect_ok cert_rotator.Base.Decimal.itoa
    HealthCheck.addr_of after_round HealthCheck.url_of fail sleep native.Mathlib.Decide.ℕ_discrete
retry_ok = refl

check_all_with_retry-ok_example :
    (w1 : World) × (check_all env checker w1
      ≡ (ok tt, (check_all_with_retry env checker (pos 2) 15 start).1))
check_all_with_retry-ok_example =
    check_all_with_retry-ok env checker 1 15 start
      (check_all_with_retry env checker (pos 2) 15 start).1 refl retry_ok

abbrev report : HealthCheck.Result
report = record {
  node = "n1";
  healthy = true;
  components =
      ("kube-scheduler", none)
      ∷ ("kube-controller-manager", none)
      ∷ ("kube-apiserver", none)
      ∷ ("etcd", none)
      ∷ [];
}

-- Nothing answers.
abbrev down : Env
down = record env { dial = λ _ _. some (message "connection refused") }

seconds-check_all_with_retry_example :
    seconds (check_all_with_retry down checker (pos 3) 15 start).1.trace
    ≤ seconds start.trace + (if false then 0 else (3 - 1) * 15)
seconds-check_all_with_retry_example = seconds-check_all_with_retry down checker (pos 3) 15 start

detailed_ok :
    check_all_detailed env checker start ≡ (ok report, (check_all_detailed env checker start).1)
unfolding check_all_detailed detail_each ◌>>=◌ attempt check wrap tcp_probe dial next_call emit pure
    http_probe http_get lift expect_ok native.Mathlib.Decide.ℕ_discrete note_check
    cert_rotator.Base.Decimal.itoa HealthCheck.addr_of HealthCheck.url_of fail
detailed_ok = refl

check_all_detailed_lem_example :
    (true ≡ all passed report.components)
    × ◌≡◌ {A = String} "n1" "n1"
    × Checked env checker control_plane_components start []
        (check_all_detailed env checker start).1
        report.components
check_all_detailed_lem_example =
    check_all_detailed_lem env checker start report (check_all_detailed env checker start).1
      detailed_ok

abbrev notifier : Notifier.Notifier
notifier = record {
  smtp = record {
    enabled = true;
    host = "mail";
    port = 25;
    sender = "a";
    recipients = "b" ∷ [];
    username = "";
    password = "";
  };
  slack = record { enabled = false; webhook_url = "" };
}

abbrev event : Notifier.Event
event = record {
  type = EventType.renewal_success;
  node = "n1";
  timestamp = none;
  message = "done";
  details = "";
}

notified : notify env notifier event start ≡ (ok tt, (notify env notifier event start).1)
unfolding notify ◌>>=◌ now next_call pure via attempt send_smtp cert_rotator.Base.string_eq wrap
    send_mail emit note_error
notified = refl

notify-ok_example :
    (w1 : World) × Went true
      (Mailed env notifier (record event { timestamp = some (pos 0) }))
      (record start { calls = 1 })
      w1
    × Went false
        (Posted env notifier (record event { timestamp = some (pos 0) }))
        w1
        (notify env notifier event start).1
notify-ok_example = notify-ok env notifier event start (notify env notifier event start).1 notified

notifications_silent_example :
    ((send_renewal_success env "n1" spec start).1.trace ≡ [])
    × ((send_rollback_notification env "n1" spec (message "e") start).1.trace ≡ [])
    × ((send_critical_alert env "n1" spec "e" start).1.trace ≡ [])
notifications_silent_example = notifications_silent env "n1" "e" spec (message "e") start
