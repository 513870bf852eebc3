-- ===== src/Notifier/Frame.antt =====
-- Notifications change no file.
use cert_rotator.Base.{ℕ, String, Bool, List, Option}
use cert_rotator.Api.{FilePath}
use cert_rotator.Host.{Env, File, Exec}
use cert_rotator.Host.Keeps.{Keeps}
use cert_rotator.Host.Frame.{FileIs, file_rules}
use cert_rotator.Notifier.{
  Event, Notifier, send_smtp, send_slack, expect_ok, via, notify, notify_critical,
}

module _ {q : FilePath} {x : Option File} (env : Env) where
  send_smtp-FileIs : (n : Notifier) (e : Event) → Keeps (FileIs q x) (send_smtp env n e)
  unfolding send_smtp
  send_smtp-FileIs n e = search file_rules

  expect_ok-FileIs : (status : ℕ) → Keeps (FileIs q x) (expect_ok status)
  unfolding expect_ok
  expect_ok-FileIs status = search file_rules

  send_slack-FileIs : (n : Notifier) (e : Event) → Keeps (FileIs q x) (send_slack env n e)
  unfolding send_slack
  send_slack-FileIs n e = search (file_rules, expect_ok-FileIs) depth 8

  via-FileIs :
      (enabled : Bool) (channel : String) (send : Exec (Unit {0})) (errs : List String)
      → Keeps (FileIs q x) send
      → Keeps (FileIs q x) (via enabled channel send errs)
  unfolding via
  via-FileIs enabled channel send errs k = search file_rules

  pub notify-FileIs : (n : Notifier) (e : Event) → Keeps (FileIs q x) (notify env n e)
  unfolding notify
  notify-FileIs n e = search (file_rules, via-FileIs, send_smtp-FileIs, send_slack-FileIs) depth 8

  pub notify_critical-FileIs :
      (n : Notifier) (e : Event) → Keeps (FileIs q x) (notify_critical env n e)
  unfolding notify_critical
  notify_critical-FileIs n e = search (file_rules, send_smtp-FileIs, send_slack-FileIs) depth 8
