-- ===== src/Detector/Log.antt =====
-- What is logged and printed of a detection (LogSummary and Summary in pkg/detector/detector.go).
pub mod Levels
use cert_rotator.Base.{String, ◌<>◌, List, [], ◌∷◌, ◌++◌, map, some}
use cert_rotator.Base.Decimal.{itoa_ℤ}
use cert_rotator.Host.{Env, message}
use cert_rotator.Detector.{
  CertStatus, unset, expired, approaching, CertInfo, DetectionResult, status_text,
}
use cert_rotator.Logger.{Entry, text_value, int_value, info, warn, critical}

-- `c.Expiry.Format(time.RFC3339)`
abbrev pub expiry_text : Env → CertInfo → String
expiry_text env c = env.format "2006-01-02T15:04:05Z07:00" c.expiry

-- The `switch` on the status, which has no default.
unfoldable pub log_cert : Env → String → CertInfo → CertStatus → List Entry
log_cert env node c CertStatus.ok =
    info "detector" node "Certificate is healthy — no action required" (
      ("cert", text_value c.name)
      ∷ ("expiry", text_value (expiry_text env c))
      ∷ ("residual_days", int_value c.residual_days)
      ∷ ("next_action", text_value "none")
      ∷ [])
    ∷ []
log_cert env node c approaching =
    warn "detector" node
      ("Certificate is expiring soon — renewal will be triggered. "
        <> "If left unrenewed, the control plane will stop working when this cert expires.")
      (("cert", text_value c.name)
        ∷ ("expiry", text_value (expiry_text env c))
        ∷ ("residual_days", int_value c.residual_days)
        ∷ ("next_action", text_value "renewal scheduled for this cycle")
        ∷ [])
    ∷ []
log_cert env node c expired =
    critical "detector" node
      ("CERTIFICATE HAS ALREADY EXPIRED. The control plane component using this cert "
        <> "may already be unreachable. Immediate renewal is being triggered.")
      (some (message ("cert " <> c.name <> " expired on " <> expiry_text env c)))
      (("cert", text_value c.name)
        ∷ ("expired_at", text_value (expiry_text env c))
        ∷ ("next_action", text_value "immediate renewal triggered — this cycle will not wait")
        ∷ [])
    ∷ []
log_cert env node c unset = []

unfoldable pub log_certs : Env → String → List CertInfo → List Entry
log_certs env node [] = []
log_certs env node (c ∷ certs) = log_cert env node c c.status ++ log_certs env node certs

unfoldable pub log_summary : Env → DetectionResult → List Entry
log_summary env r = log_certs env r.node r.certs

abbrev summary_line : Env → String → CertInfo → String
summary_line env node c =
    "["
    <> node
    <> "] "
    <> c.name
    <> " — expiry: "
    <> expiry_text env c
    <> ", residual: "
    <> itoa_ℤ c.residual_days
    <> " days, status: "
    <> status_text c.status

unfoldable pub summary : Env → DetectionResult → List String
summary env r = map (summary_line env r.node) r.certs
