-- ===== src/Controller/History.antt =====
-- Passes one after the other.
use cert_rotator.Base.{String, true, ◌≡◌, refl, ap, ◌∙◌}
use cert_rotator.Api.{CertRotationConfigSpec}
use cert_rotator.Host.{Env, World, found}
use cert_rotator.State.{Json}
use cert_rotator.Controller.{is_critical, reconcile}
use cert_rotator.Controller.Passes.{reconcile-critical}

-- Each pass fetches the status that the one before it left, and meets an outside of its own; the
-- specification may be another one each time, and a pass may end with an error or a panic.
pub data History (json : Json) (node : String) (w : World) : World → Type 0 where
  start : History json node w w
  pass :
      {v : World} (env : Env) (spec : CertRotationConfigSpec)
      → History json node w v
      → env.get v.calls ≡ found spec v.status
      → History json node w (reconcile env json node v).1

-- Once the status of a node is Critical it stays so through any number of passes, as long as nobody
-- else changes it, and they change no file, no status and nothing outside.
pub History-critical :
    (json : Json) (node : String) (w : World) {w' : World}
    → History json node w w'
    → is_critical node w.status ≡ true
    → (w'.status ≡ w.status) × (w'.files ≡ w.files) × (w'.trace ≡ w.trace)
History-critical json node w start critical = (refl, refl, refl)
History-critical json node w (pass {v} env spec history fetched) critical =
    let (same_status, same_files, same_trace) = History-critical json node w history critical in
    let still : is_critical node v.status ≡ true = ap (is_critical node) same_status ∙ critical in
    let idle = ap (λ p. p.1) (reconcile-critical env json node spec v.status v fetched still) in
    (
      ap World.status idle ∙ same_status,
      ap World.files idle ∙ same_files,
      ap World.trace idle ∙ same_trace,
    )
