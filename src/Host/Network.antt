-- ===== src/Host/Network.antt =====
-- Sleeping, probing, sending, and the status patch of the controller's client.
use cert_rotator.Base.{ℕ, String, Option, none, some, List, ◌⊎◌, inl, inr}
use cert_rotator.Api.{CertRotationConfigStatus}
use cert_rotator.Host.Types.{
  Error, Env, slept, dialled, requested, mailed, posted, patched, Fetched,
}
use cert_rotator.Host.Monad.{Exec, pure, fail, lift, emit, next_call, modify_status, ◌>>=◌, ◌>>◌}

-- `time.Sleep`, in seconds
unfoldable pub sleep : ℕ → Exec (Unit {0})
sleep seconds = emit (slept seconds)

abbrev pub or_fail : Option Error → Exec (Unit {0})
or_fail none = pure tt
or_fail (some e) = fail e

-- `net.DialTimeout("tcp", addr, …)`, and the close of the connection
unfoldable pub dial : Env → String → Exec (Unit {0})
dial env addr = next_call >>= λ n. emit (dialled addr) >> or_fail (env.dial n addr)

-- `client.Get(url)`: the status code of the response
unfoldable pub http_get : Env → String → Exec ℕ
http_get env url = next_call >>= λ n. emit (requested url) >> lift (env.http_get n url)

-- `smtp.SendMail(addr, …, from, to, msg)`
unfoldable pub send_mail : Env → String → List String → String → Exec (Unit {0})
send_mail env addr to msg =
    next_call >>= λ n. emit (mailed to) >> or_fail (env.send_mail n addr to msg)

-- `http.Post(url, …)`
unfoldable pub http_post : Env → String → String → Exec ℕ
http_post env url body = next_call >>= λ n. emit (posted url) >> lift (env.http_post n url body)

-- On success the object takes the status that the server returned.
abbrev pub store_reply : Error ⊎ CertRotationConfigStatus → Exec (Unit {0})
store_reply (inl e) = fail e
store_reply (inr s) = modify_status (λ _. s) >> emit (patched s)

-- `r.Status().Patch(ctx, cfg, client.MergeFrom(before))`
unfoldable pub patch_status : Env → CertRotationConfigStatus → Exec (Unit {0})
patch_status env before = next_call >>= λ n. λ w. store_reply (env.patch n before w.status) w

-- `r.Get(ctx, req.NamespacedName, cfg)`
unfoldable pub get_config : Env → Exec Fetched
get_config env = next_call >>= λ n. pure (env.get n)
