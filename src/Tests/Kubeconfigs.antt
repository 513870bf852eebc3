-- ===== src/Tests/Kubeconfigs.antt =====
-- Examples of the renewal of kubeconfigs.
use cert_rotator.Base.{false, [], ◌∷◌, inr, refl, ◌≡◌, path_eq, string_eq, string_dec}
use cert_rotator.Host.{World, ok}
use cert_rotator.Kubeconfig.{Codec, KubeconfigFile, User, Manager, renew, renew_all}
use cert_rotator.Kubeconfig.Renewed.{Outcome, renew-ok}
use cert_rotator.Tests.Outside.{env, with_files}

abbrev admin : User
admin = record {
  name = "admin";
  user = record { client_certificate_data = "old"; client_key_data = "old key" };
}

abbrev kubeconfig : KubeconfigFile
kubeconfig = record {
  api_version = "v1";
  kind = "Config";
  clusters = [];
  users = admin ∷ [];
  contexts = [];
  current_context = "kubernetes";
}

abbrev codec : Codec
codec = record {
  unmarshal = λ _. inr kubeconfig;
  marshal = λ _. inr (5 ∷ []);
  base64_encode = λ _. "new";
}

abbrev manager : Manager
manager = record { kubeconfig_dir = "conf" ∷ []; pki_dir = "pki" ∷ []; dry_run = false }

abbrev start : World
start =
    with_files
      (("conf" ∷ "admin.conf" ∷ []) ∷ ("pki" ∷ "ca.crt" ∷ []) ∷ ("pki" ∷ "ca.key" ∷ []) ∷ [])

abbrev end_world : World
end_world = (renew env codec manager "admin.conf" "kubernetes-admin" start).1

renewed : renew env codec manager "admin.conf" "kubernetes-admin" start ≡ (ok tt, end_world)
unfolding renew path_eq string_eq string_dec cert_rotator.Host.◌>>=◌ cert_rotator.Host.attempt
    cert_rotator.Host.read_file cert_rotator.Host.stat cert_rotator.Host.fallible
    cert_rotator.Host.next_call cert_rotator.Host.look_up cert_rotator.Host.pure
    cert_rotator.Host.wrap cert_rotator.Host.lift cert_rotator.Host.now cert_rotator.Host.write_file
    cert_rotator.Host.write_with cert_rotator.Host.put_file cert_rotator.Host.fail
    cert_rotator.Kubeconfig.renew_read cert_rotator.Kubeconfig.renew_users
    cert_rotator.Kubeconfig.finish cert_rotator.Kubeconfig.write_updated
    cert_rotator.Kubeconfig.generate_client_cert cert_rotator.Kubeconfig.build_client_cert_template
    cert_rotator.Generator.load_ca_cert cert_rotator.Generator.load_existing_cert
    cert_rotator.Generator.read_pem_file cert_rotator.Generator.load_ca_key
    cert_rotator.Generator.parse_ca_key cert_rotator.Generator.rsa_key
    cert_rotator.Generator.generate_key cert_rotator.Generator.encode_cert_pem
    cert_rotator.Generator.encode_key_pem cert_rotator.Signer.sign
renewed = refl

renew-ok_example :
    Outcome env codec manager "kubernetes-admin" ("conf" ∷ "admin.conf" ∷ []) start end_world
renew-ok_example =
    renew-ok env codec manager "admin.conf" "kubernetes-admin" start end_world refl renewed
