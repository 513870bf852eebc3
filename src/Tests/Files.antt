-- ===== src/Tests/Files.antt =====
-- Examples of what is done to files.
use cert_rotator.Base.{
  ◌⊎◌, String, false, [], ◌∷◌, some, inr, ◌≡◌, ◌≢◌, arith, refl, ◌+◌, ◌==◌, path_eq, string_eq,
  string_dec, if◌then◌else◌,
}
use cert_rotator.Base.Int.{pos, ◌-ℤ◌, ◌+ℤ◌}
use cert_rotator.Api.{FilePath}
use cert_rotator.Host.{
  Bytes, Certificate, PrivateKey, Value, str, dict, end, field, File, Fields, World, Result, ok,
}
use cert_rotator.Detector.{lookup_field}
use cert_rotator.Generator.{ten_minutes, cert_validity}
use cert_rotator.PodRestart
use cert_rotator.PodRestart.{annotate, annotation_key, restart, restart_all, submap}
use cert_rotator.PodRestart.Annotation.{annotate_lem, annotation}
use cert_rotator.PodRestart.Rewrite.{restart-ok, Rewritten}
use cert_rotator.Signer.{sign_with_self_key}
use cert_rotator.Signer.Renewed.{sign_with_self_key_lem, Mirrors}
use cert_rotator.State.{State, Json, new, save, load}
use cert_rotator.State.Reload.{load-save}
use cert_rotator.Writer.{Writer, write_cert_key_pair}
use cert_rotator.Writer.Contents.{write_cert_key_pair_lem}
use cert_rotator.Tests.Outside.{env, cert, key, manifest, with_files}

abbrev pods : PodRestart.Manager
pods = record { manifest_dir = "manifests" ∷ []; dry_run = false }

abbrev with_manifest : World
with_manifest = with_files (("manifests" ∷ "etcd.yml" ∷ []) ∷ [])

restarted :
    restart env pods "etcd" with_manifest ≡ (ok tt, (restart env pods "etcd" with_manifest).1)
unfolding restart cert_rotator.Host.◌>>=◌ PodRestart.find_manifest cert_rotator.Host.attempt
    cert_rotator.Host.stat cert_rotator.Host.fallible cert_rotator.Host.next_call
    cert_rotator.Host.look_up path_eq cert_rotator.Host.fail cert_rotator.Host.pure
    PodRestart.rewrite_manifest cert_rotator.Host.wrap cert_rotator.Host.read_file
    PodRestart.inject_restart_annotation cert_rotator.Host.lift PodRestart.annotated string_dec
    string_eq lookup_field cert_rotator.Host.put_file cert_rotator.Host.write_file
    cert_rotator.Host.write_with cert_rotator.Host.crash cert_rotator.Host.now annotate
    PodRestart.set_field submap
restarted = refl

restart-ok_example :
    (suffix : String) × ((suffix ≡ ".yaml") ⊎ (suffix ≡ ".yml"))
    × Rewritten env
        (PodRestart.manifest pods "etcd" suffix)
        with_manifest
        (restart env pods "etcd" with_manifest).1
restart-ok_example =
    restart-ok env pods "etcd" with_manifest (restart env pods "etcd" with_manifest).1 refl
      restarted

abbrev other : String
other = "other"

annotate_lem_example :
    (annotation other (annotate "now" manifest)
      ≡ (if other == annotation_key then some (str "now") else annotation other manifest))
    × (other ≢ "annotations"
        → lookup_field other (submap "metadata" (annotate "now" manifest))
          ≡ lookup_field other (submap "metadata" manifest))
    × (other ≢ "metadata"
        → lookup_field other (annotate "now" manifest) ≡ lookup_field other manifest)
annotate_lem_example = annotate_lem "now" other manifest

abbrev writer : Writer
writer = record { pki_dir = "pki" ∷ []; dry_run = false }

abbrev written_to : World
written_to = with_files (("pki" ∷ "apiserver.crt" ∷ []) ∷ [])

abbrev after_write : World
after_write =
    (write_cert_key_pair env writer ("apiserver.crt" ∷ []) ("apiserver.key" ∷ []) (7 ∷ []) (8 ∷ [])
      written_to).1

written :
    write_cert_key_pair env writer
      ("apiserver.crt" ∷ [])
      ("apiserver.key" ∷ [])
      (7 ∷ [])
      (8 ∷ [])
      written_to
    ≡ (ok tt, after_write)
unfolding write_cert_key_pair cert_rotator.Host.◌>>=◌ cert_rotator.Writer.write_cert
    cert_rotator.Writer.write_below cert_rotator.Host.wrap cert_rotator.Host.mkdir_all
    cert_rotator.Host.fallible cert_rotator.Host.next_call cert_rotator.Host.make_dirs
    cert_rotator.Host.write_file cert_rotator.Host.write_with cert_rotator.Host.put_file string_eq
    cert_rotator.Writer.write_key
written = refl

differ : (p q : FilePath) → (p == q) ≡ false → p ≢ q
differ p q h = ground (arith, h)

pair_apart : ◌≢◌ {A = FilePath} ("pki" ∷ "apiserver.crt" ∷ []) ("pki" ∷ "apiserver.key" ∷ [])
unfolding path_eq string_dec
pair_apart = differ ("pki" ∷ "apiserver.crt" ∷ []) ("pki" ∷ "apiserver.key" ∷ []) refl

write_cert_key_pair_lem_example :
    (after_write.files ("pki" ∷ "apiserver.crt" ∷ [])
      ≡ some (record { content = 7 ∷ []; mode = 0o600 }))
    × (after_write.files ("pki" ∷ "apiserver.key" ∷ [])
        ≡ some (record { content = 8 ∷ []; mode = 0o600 }))
unfolding path_eq
write_cert_key_pair_lem_example =
    write_cert_key_pair_lem env writer ("apiserver.crt" ∷ []) ("apiserver.key" ∷ []) (7 ∷ [])
      (8 ∷ []) written_to after_write refl pair_apart written

abbrev pems : Bytes × Bytes
pems = (8 ∷ [], 9 ∷ [])

signed :
    sign_with_self_key env cert cert key (with_files [])
    ≡ (ok pems, (sign_with_self_key env cert cert key (with_files [])).1)
unfolding sign_with_self_key cert_rotator.Host.◌>>=◌ cert_rotator.Host.wrap
    cert_rotator.Generator.generate_key cert_rotator.Host.next_call cert_rotator.Host.lift
    cert_rotator.Generator.build_template cert_rotator.Host.now cert_rotator.Host.pure
    cert_rotator.Signer.sign cert_rotator.Generator.encode_cert_pem
    cert_rotator.Generator.encode_key_pem
signed = refl

sign_with_self_key_lem_example :
    (new : PrivateKey) × (t : Certificate) × (der : Bytes) × (env.generate_key 0 ≡ inr new)
    × Mirrors t cert
    × (t.not_before ≡ pos 2 -ℤ ten_minutes)
    × (t.not_after ≡ pos 2 +ℤ cert_validity)
    × (env.create_certificate 3 t cert new key ≡ inr der)
    × (pems ≡ (der, new.der))
sign_with_self_key_lem_example =
    sign_with_self_key_lem env cert cert key (with_files []) pems
      (sign_with_self_key env cert cert key (with_files [])).1 signed

abbrev stamped : State
stamped = record new { updated_at = some (pos 0) }

abbrev json : Json
json = record { marshal = λ _. inr (3 ∷ []); unmarshal = λ _. inr stamped }

abbrev saved_to : World
saved_to = (save env json ("state.json" ∷ []) new (with_files [])).1

saved : save env json ("state.json" ∷ []) new (with_files []) ≡ (ok (stamped, inr tt), saved_to)
unfolding save cert_rotator.Host.◌>>=◌ cert_rotator.Host.now cert_rotator.Host.next_call
    cert_rotator.Host.pure cert_rotator.Host.attempt cert_rotator.State.write_state
    cert_rotator.Host.lift cert_rotator.Host.mkdir_all cert_rotator.Host.fallible
    cert_rotator.Host.make_dirs cert_rotator.Host.write_file cert_rotator.Host.write_with
    cert_rotator.Host.put_file
saved = refl

load-save_example :
    (stamped ≡ record new { updated_at = some (pos 0) })
    × (load env json ("state.json" ∷ []) saved_to
        ≡ (ok stamped, record saved_to { calls = saved_to.calls + 1 }))
load-save_example =
    load-save env json ("state.json" ∷ []) new stamped (with_files []) saved_to (λ _ _. refl) saved
      refl
