-- ===== src/Notifier/Channels.antt =====
-- When a notification counts as sent.
use cert_rotator.Base.{
  ℕ, ◌+◌, String, ◌<>◌, Bool, true, false, List, [], ◌∷◌, none, some, ◌⊎◌, inl, inr, if◌then◌else◌,
  ◌≡◌, ◌≢◌, refl, ap, sym, ◌∙◌, arith, ◌==◌, string_eq, nat_eq,
}
use cert_rotator.Base.Decimal.{itoa}
use cert_rotator.Host.{
  Env, Error, World, mailed, posted, ok, Exec, pure, fail, wrap, lift, emit, next_call, send_mail,
  http_post, ◌>>=◌,
}
use cert_rotator.Host.Inversion.{>>=-eq-ok, wrap-eq-ok, not_refused}
use cert_rotator.Host.Written.{attempt-inr, now-ok, pure-ok, lift-ok}
use cert_rotator.Notifier.{
  Event, Notifier, mail, slack_payload, expect_ok, send_smtp, send_slack, note_error, via, is_empty,
  notify,
}

note_error-empty :
    (channel : String) (errs : List String) (r : Error ⊎ Unit {0})
    → is_empty (note_error channel errs r) ≡ true
    → (errs ≡ []) × (r ≡ inr tt)
unfolding note_error
note_error-empty channel [] (inl e) h = absurd (cc)
note_error-empty channel (x ∷ errs) (inl e) h = absurd (cc)
note_error-empty channel [] (inr _) h = (refl, refl)
note_error-empty channel (x ∷ errs) (inr _) h = absurd (cc)

-- What a channel does from one world to the next: nothing if it is not enabled.
abbrev pub Went : Bool → (World → World → Type 0) → World → World → Type 0
Went true Sent w w' = Sent w w'
Went false Sent w w' = w ≡ w'

-- One mail, with the text of the event, was handed to the server of the configuration for all of the
-- recipients, of whom there is one at least; the server took it, and nothing else was done.
pub record Mailed (env : Env) (n : Notifier) (event : Event) (w w' : World) : Type 0 where
  pub has_host : n.smtp.host ≢ ""
  pub has_recipients : is_empty n.smtp.recipients ≡ false
  pub was_taken :
      env.send_mail w.calls
        (n.smtp.host <> ":" <> itoa n.smtp.port)
        n.smtp.recipients
        (mail env n event)
      ≡ none
  pub only : w' ≡ record w { calls = w.calls + 1; trace = mailed n.smtp.recipients ∷ w.trace }

-- The JSON text of the message was posted once to the URL of the configuration and answered with
-- 200, and nothing else was done.
pub record Posted (env : Env) (n : Notifier) (event : Event) (w w' : World) : Type 0 where
  pub body : String
  pub has_url : n.slack.webhook_url ≢ ""
  pub is_text : env.json_marshal (slack_payload env event) ≡ inr body
  pub was_taken : env.http_post w.calls n.slack.webhook_url body ≡ inr 200
  pub only : w' ≡ record w { calls = w.calls + 1; trace = posted n.slack.webhook_url ∷ w.trace }

send_smtp-ok :
    (env : Env) (n : Notifier) (event : Event) (w : World) {w' : World}
    → send_smtp env n event w ≡ (ok tt, w')
    → Mailed env n event w w'
unfolding send_smtp send_mail emit next_call pure fail wrap ◌>>=◌
send_smtp-ok env n event w done = record {
  has_host = λ no_host. ground (arith, no_host);
  has_recipients = ground arith;
  was_taken = ground arith;
  only = ground arith;
}

http_post-ok :
    (env : Env) (url body : String) (w : World) {status : ℕ} {w' : World}
    → http_post env url body w ≡ (ok status, w')
    → (env.http_post w.calls url body ≡ inr status)
      × (w' ≡ record w { calls = w.calls + 1; trace = posted url ∷ w.trace })
unfolding http_post emit next_call pure fail lift ◌>>=◌
http_post-ok env url body w done = ground arith

expect_ok-ok :
    (status : ℕ) (w : World) {w' : World}
    → expect_ok status w ≡ (ok tt, w')
    → (status ≡ 200) × (w ≡ w')
unfolding expect_ok pure fail
expect_ok-ok status w done = ground arith

send_slack-ok :
    (env : Env) (n : Notifier) (event : Event) (w : World) {w' : World}
    → send_slack env n event w ≡ (ok tt, w')
    → Posted env n event w w'
unfolding send_slack
send_slack-ok env n event w done =
    let url = n.slack.webhook_url in
    let (has_url, sent) = not_refused (url == "") _ _ w done in
    let (body, w1, e1, d1) = >>=-eq-ok _ _ w sent in
    let (is_text, same) = lift-ok (env.json_marshal _) w (wrap-eq-ok _ _ w e1) in
    let (status, w2, e2, d2) = >>=-eq-ok _ _ w1 d1 in
    let (answered, is_posted) = http_post-ok env url body w1 (wrap-eq-ok _ _ w1 e2) in
    let (is_200, stay) = expect_ok-ok status w2 d2 in
    record {
      body = body;
      has_url = λ no_url. ground (arith, no_url, has_url);
      is_text = is_text;
      was_taken = rw (sym same) at answered ∙ ap inr is_200;
      only = sym stay ∙ rw (sym same) at is_posted;
    }

empty_is_nil : (l : List String) → is_empty l ≡ true → l ≡ []
empty_is_nil [] h = refl
empty_is_nil (x ∷ l) h = absurd (cc)

-- The end of `notify`.
no_errors :
    (all : List String) (e : Error) (w : World) {w' : World}
    → (if is_empty all then pure tt else fail e) w ≡ (ok tt, w')
    → (is_empty all ≡ true) × (w ≡ w')
unfolding fail
no_errors [] e w done = (refl, (pure-ok _ w done).1)
no_errors (x ∷ l) e w done = absurd (cc)

via-ok :
    (enabled : Bool) (channel : String) (send : Exec (Unit {0})) (errs out : List String)
    (w : World) {w' : World}
    → via enabled channel send errs w ≡ (ok out, w')
    → is_empty out ≡ true
    → (errs ≡ []) × Went enabled (λ v v'. send v ≡ (ok tt, v')) w w'
unfolding via
via-ok false channel send errs out w {w'} done empty =
    let (same, stay) = pure-ok _ w done in (empty_is_nil errs (rw same empty), stay)
via-ok true channel send errs out w {w'} done empty =
    let (r, w1, e1, d1) = >>=-eq-ok _ _ w done in
    let (same, stay) = pure-ok _ w1 d1 in
    let (no_errs, sent) = note_error-empty channel errs r (rw same empty) in
    (no_errs, attempt-inr send w (e1 ∙ (λ i. (ok (sent i), stay i))))

Went-weaken :
    (enabled : Bool) (Sent Told : World → World → Type 0) (w w' : World)
    → (Sent w w' → Told w w')
    → Went enabled Sent w w'
    → Went enabled Told w w'
Went-weaken true Sent Told w w' f went = f went
Went-weaken false Sent Told w w' f went = went

-- A notification that reports no error has stamped the event with the time and then done this and
-- nothing else: if mail is enabled, it has handed one mail with the event's text to the configured
-- server for all recipients, and the server took it; then, if Slack is enabled, it has posted one
-- message with the event's text to the configured URL, and the answer was 200. An enabled channel
-- has a host and recipients, or a URL.
pub notify-ok :
    (env : Env) (n : Notifier) (event : Event) (w w' : World)
    → notify env n event w ≡ (ok tt, w')
    → (w1 : World) × Went n.smtp.enabled
        (Mailed env n (record event { timestamp = some (env.clock w.calls) }))
        (record w { calls = w.calls + 1 })
        w1
      × Went n.slack.enabled
          (Posted env n (record event { timestamp = some (env.clock w.calls) }))
          w1
          w'
unfolding notify
notify-ok env n event w w' done =
    let stamped : Event = record event { timestamp = some (env.clock w.calls) } in
    let (t, w1, e1, d1) = >>=-eq-ok _ _ w done in
    let (errs, w2, e2, d2) = >>=-eq-ok _ _ w1 d1 in
    let (out, w3, e3, d3) = >>=-eq-ok _ _ w2 d2 in
    let (no_errs, slack) =
      via-ok n.slack.enabled "Slack" _ errs out w2 e3 (no_errors out _ w3 d3).0 in
    let (_, smtp) = via-ok n.smtp.enabled "SMTP" _ [] errs w1 e2 (ap is_empty no_errs) in
    let (at_time, at_world) = now-ok env w e1 in
    (
      w2,
      Went-weaken n.smtp.enabled (λ v v'. send_smtp env n stamped v ≡ (ok tt, v')) _ _ w2
          (send_smtp-ok env n stamped _) (rw (sym at_time, sym at_world) at smtp),
      Went-weaken n.slack.enabled (λ v v'. send_slack env n stamped v ≡ (ok tt, v')) _ w2 w'
          (send_slack-ok env n stamped w2) (rw (sym at_time, (no_errors out _ w3 d3).1) at slack),
    )
