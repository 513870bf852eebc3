-- ===== src/Notifier.antt =====
-- Notifications by mail and Slack (pkg/notifier/notifier.go).
pub mod Channels
pub mod Frame
use cert_rotator.Base.{
  ℕ, String, ◌<>◌, Bool, true, false, List, [], ◌∷◌, ◌++◌, Option, none, some, ◌⊎◌, inl, inr, ◌==◌,
  string_eq, nat_eq, ◌||◌, if◌then◌else◌,
}
use cert_rotator.Base.Decimal.{itoa}
use cert_rotator.Api.{Time}
use cert_rotator.Host.{
  Env, Error, message, text, str, seq, dict, nil, cons, Fields, end, field, Exec, pure, fail, wrap,
  attempt, lift, log_error, now, send_mail, http_post, ◌>>=◌, ◌>>◌,
}

pub data EventType : Type 0 where
  renewal_success renewal_failure rollback_success rollback_failure : EventType
  cert_expiring cert_expired critical : EventType

-- `string(event.Type)`
abbrev pub type_text : EventType → String
type_text renewal_success = "RENEWAL_SUCCESS"
type_text renewal_failure = "RENEWAL_FAILURE"
type_text rollback_success = "ROLLBACK_SUCCESS"
type_text rollback_failure = "ROLLBACK_FAILURE"
type_text cert_expiring = "CERT_EXPIRING"
type_text cert_expired = "CERT_EXPIRED"
type_text critical = "CRITICAL"

pub record Event : Type 0 where
  pub type : EventType
  pub node : String
  pub timestamp : Option Time
  pub message : String
  pub details : String

pub record SmtpConfig : Type 0 where
  pub enabled : Bool
  pub host : String
  pub port : ℕ
  pub sender : String
  pub recipients : List String
  pub username : String
  pub password : String

pub record SlackConfig : Type 0 where
  pub enabled : Bool
  pub webhook_url : String

pub record Notifier : Type 0 where
  pub smtp : SmtpConfig
  pub slack : SlackConfig

unfoldable pub format_subject : Event → String
format_subject event = elim event.type [
  | critical ↦
      "[CRITICAL] cert-rotator: rollback failed on " <> event.node
      <> " — manual intervention required"
  | renewal_failure ↦ "[FAILURE] cert-rotator: renewal failed on " <> event.node
  | rollback_success ↦ "[ROLLBACK] cert-rotator: all nodes restored after failure on " <> event.node
  | rollback_failure ↦
      "[CRITICAL] cert-rotator: rollback failed on " <> event.node
      <> " — manual intervention required"
  | renewal_success ↦ "[SUCCESS] cert-rotator: control plane certs renewed successfully"
  | cert_expiring ↦ "[WARNING] cert-rotator: control plane certs expiring soon on " <> event.node
  | cert_expired ↦
      "[URGENT] cert-rotator: control plane certs already expired on " <> event.node
      <> " — immediate renewal triggered"
]

abbrev stamp : Env → Option Time → String
stamp env none = "0001-01-01T00:00:00Z"
stamp env (some t) = env.format "2006-01-02T15:04:05Z07:00" t

unfoldable pub format_body : Env → Event → String
format_body env event =
    "Event:     "
    <> type_text event.type
    <> "\nNode:      "
    <> event.node
    <> "\nTimestamp: "
    <> stamp env event.timestamp
    <> "\nMessage:   "
    <> event.message
    <> "\n"
    <> (if event.details == "" then "" else "\n--- Details ---\n" <> event.details)
    <> "\n\n-- cert-rotator"

unfoldable pub slack_color : EventType → String
slack_color renewal_success = "good"
slack_color rollback_success = "good"
slack_color cert_expiring = "warning"
slack_color renewal_failure = "danger"
slack_color rollback_failure = "danger"
slack_color critical = "danger"
slack_color cert_expired = "danger"

unfoldable pub slack_icon : EventType → String
slack_icon renewal_success = ":white_check_mark:"
slack_icon rollback_success = ":arrows_counterclockwise:"
slack_icon cert_expiring = ":warning:"
slack_icon critical = ":rotating_light:"
slack_icon rollback_failure = ":rotating_light:"
slack_icon renewal_failure = ":x:"
slack_icon cert_expired = ":skull:"

unfoldable pub format_slack_message : Event → String
format_slack_message event =
    slack_icon event.type
    <> " *cert-rotator* | `"
    <> type_text event.type
    <> "` | Node: `"
    <> event.node
    <> "`\n"
    <> event.message

-- `strings.Join`
unfoldable pub join : String → List String → String
join sep [] = ""
join sep (s ∷ []) = s
join sep (s ∷ t ∷ rest) = s <> sep <> join sep (t ∷ rest)

unfoldable pub mail : Env → Notifier → Event → String
mail env n event =
    "From: "
    <> n.smtp.sender
    <> "\r\nTo: "
    <> join ", " n.smtp.recipients
    <> "\r\nSubject: "
    <> format_subject event
    <> "\r\nContent-Type: text/plain; charset=UTF-8\r\n\r\n"
    <> format_body env event

abbrev pub is_empty : List String → Bool
is_empty [] = true
is_empty (s ∷ l) = false

unfoldable pub send_smtp : Env → Notifier → Event → Exec (Unit {0})
send_smtp env n event =
    if n.smtp.host == "" || is_empty n.smtp.recipients
    then fail (message "SMTP not configured: missing host or recipients")
    else wrap "sending email" (
        send_mail env (n.smtp.host <> ":" <> itoa n.smtp.port) n.smtp.recipients (mail env n event))

unfoldable pub slack_payload : Env → Event → Fields
slack_payload env event = field "text" (str (format_slack_message event)) (
    field "attachments"
      (seq (
        cons
          (dict (
            field "color" (str (slack_color event.type)) (
              field "text" (str event.details)
                (field "footer" (str ("cert-rotator | " <> stamp env event.timestamp)) end))))
          nil))
      end)

unfoldable pub expect_ok : ℕ → Exec (Unit {0})
expect_ok status =
    if status == 200
    then pure tt
    else fail (message ("slack webhook returned HTTP " <> itoa status))

unfoldable pub send_slack : Env → Notifier → Event → Exec (Unit {0})
send_slack env n event =
    if n.slack.webhook_url == "" then fail (message "Slack webhook URL not configured") else (do
      body ← wrap "marshalling slack payload" (lift (env.json_marshal (slack_payload env event)))
      status ← wrap "sending slack webhook" (http_post env n.slack.webhook_url body)
      expect_ok status)

unfoldable pub note_error : String → List String → Error ⊎ Unit {0} → List String
note_error channel errs (inl e) = errs ++ ((channel <> ": " <> text e) ∷ [])
note_error channel errs (inr _) = errs

-- One channel of `Notify`: the errors so far, and its own.
unfoldable pub via : Bool → String → Exec (Unit {0}) → List String → Exec (List String)
via enabled channel send errs =
    if enabled then (do r ← attempt send; pure (note_error channel errs r)) else pure errs

unfoldable pub notify : Env → Notifier → Event → Exec (Unit {0})
notify env n event = do
  t ← now env
  let stamped = record event { timestamp = some t }
  errs ← via n.smtp.enabled "SMTP" (send_smtp env n stamped) []
  all ← via n.slack.enabled "Slack" (send_slack env n stamped) errs
  if is_empty all then pure tt else fail (message ("notification errors: " <> join "; " all))

-- Both channels, whatever the configuration enables.
unfoldable pub notify_critical : Env → Notifier → Event → Exec (Unit {0})
notify_critical env n event = do
  t ← now env
  let stamped = record event { type = critical; timestamp = some t }
  log_error (send_smtp env n stamped)
  log_error (send_slack env n stamped)
