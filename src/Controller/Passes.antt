-- ===== src/Controller/Passes.antt =====
-- The passes that end early.
use cert_rotator.Base.{◌+◌, String, true, ◌≡◌, arith}
use cert_rotator.Api.{CertRotationConfigSpec, CertRotationConfigStatus}
use cert_rotator.Host.{
  Env, World, found, ok, pure, gets, modify_status, next_call, get_config, ◌>>=◌,
}
use cert_rotator.State.{Json}
use cert_rotator.Controller.{is_critical, one_hour, on_found, on_fetched, reconcile}

-- A pass for a node whose entry in the fetched status is Critical makes the one call that fetches
-- the configuration, asks to run again in an hour, and changes nothing else.
pub reconcile-critical :
    (env : Env) (json : Json) (node : String) (spec : CertRotationConfigSpec)
    (status : CertRotationConfigStatus) (w : World)
    → env.get w.calls ≡ found spec status
    → is_critical node status ≡ true
    → reconcile env json node w ≡ (ok one_hour, record w { calls = w.calls + 1; status = status })
unfolding reconcile get_config on_fetched on_found gets modify_status next_call pure ◌>>=◌
reconcile-critical env json node spec status w fetched critical = ground (arith, fetched, critical)
