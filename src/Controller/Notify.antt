-- ===== src/Controller/Notify.antt =====
-- The notification helpers. The notifier is built without host, recipients or URL.
pub mod Silent
use cert_rotator.Base.{String, ◌<>◌, [], none}
use cert_rotator.Api.{CertRotationConfigSpec}
use cert_rotator.Host.{Env, Error, text, path_text, Exec, gets, log_error, ◌>>=◌}
use cert_rotator.Notifier.{
  Notifier, EventType, renewal_success, rollback_success, critical, Event, notify, notify_critical,
}
use cert_rotator.Controller.Status.{node_status}

unfoldable pub build_notifier : CertRotationConfigSpec → Notifier
build_notifier spec = record {
  smtp = record {
    enabled = spec.notifications.smtp.enabled;
    host = "";
    port = 0;
    sender = "";
    recipients = [];
    username = "";
    password = "";
  };
  slack = record { enabled = spec.notifications.slack.enabled; webhook_url = "" };
}

unfoldable pub event : EventType → String → String → Event
event type node message = record {
  type = type;
  node = node;
  timestamp = none;
  message = message;
  details = "";
}

unfoldable pub send_renewal_success : Env → String → CertRotationConfigSpec → Exec (Unit {0})
send_renewal_success env node spec = log_error (
    notify env (build_notifier spec)
      (event renewal_success node ("Node " <> node <> ": cert renewal completed successfully")))

unfoldable pub send_rollback_notification :
    Env → String → CertRotationConfigSpec → Error → Exec (Unit {0})
send_rollback_notification env node spec original = do
  ns ← gets (λ w. node_status node w.status)
  log_error (
      notify env (build_notifier spec) (
        event rollback_success node (
          "Node "
          <> node
          <> ": renewal failed ("
          <> text original
          <> "). Certs rolled back to "
          <> path_text ns.backup_path
          <> ". Investigate before next attempt.")))

unfoldable pub send_critical_alert :
    Env → String → CertRotationConfigSpec → String → Exec (Unit {0})
send_critical_alert env node spec message =
    notify_critical env (build_notifier spec)
      (event critical node ("CRITICAL — Node " <> node <> ": " <> message))
