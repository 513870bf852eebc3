-- ===== src/Tests/Writes.antt =====
-- An example of a verification.
use cert_rotator.Base.{[], ◌∷◌, some, refl, ◌≡◌, false, string_eq, string_dec}
use cert_rotator.Host.{World, ok}
use cert_rotator.Writer.{Writer, verify, verify_each, verify_file, expect_content}
use cert_rotator.Writer.Verified.{verify-ok, Present}
use cert_rotator.Tests.Outside.{env, file, with_files}

abbrev writer : Writer
writer = record { pki_dir = "pki" ∷ []; dry_run = false }

-- Every file is there.
abbrev full : World
full = record (with_files []) { files = λ _. some file }

abbrev verified : World
verified = (verify env writer full).1

verifies : verify env writer full ≡ (ok tt, verified)
unfolding verify verify_each verify_file expect_content string_eq string_dec cert_rotator.Host.◌>>=◌
    cert_rotator.Host.range_map cert_rotator.Host.next_call cert_rotator.Host.pure
    cert_rotator.Host.wrap cert_rotator.Host.stat cert_rotator.Host.fallible
    cert_rotator.Host.look_up
verifies = refl

verify-ok_example :
    Present ("pki" ∷ "etcd" ∷ "peer.crt" ∷ []) full
    × Present ("pki" ∷ "etcd" ∷ "peer.key" ∷ []) full
unfolding string_eq string_dec
verify-ok_example =
    verify-ok env writer "etcd-peer" ("etcd" ∷ "peer.crt" ∷ []) ("etcd" ∷ "peer.key" ∷ []) full
      verified (λ _. refl) refl verifies
