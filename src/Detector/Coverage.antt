-- ===== src/Detector/Coverage.antt =====
-- Which certificates a detection has looked at.
use mathlib.Core.Path.{subst}
use cert_rotator.Base.{
  ℕ, String, string_eq, true, List, [], ◌∷◌, ◌++◌, contains, Option, none, some, ◌⊎◌, inl, inr, ◌≡◌,
  refl, ap, sym, ◌∙◌,
}
use cert_rotator.Base.Dict.{Dict, keys, lookup}
use cert_rotator.Base.Dict.Visited.{Listed, select-Listed}
use cert_rotator.Api.{FilePath}
use cert_rotator.Host.{Env, File, World, Result, next_call, range_map}
use cert_rotator.Host.Ensures.{Ensures, Ensures-bind, Ensures-pure, Ensures-any, Ensures-ok}
use cert_rotator.Host.Frame.{file_rules}
use cert_rotator.Host.Inversion.{>>=-eq-ok, wrap-eq-ok}
use cert_rotator.Host.Written.{pure-ok, stays}
use cert_rotator.Detector.{
  CertInfo, DetectionResult, Detector, cert_files, kubeconfig_certs, classified, append_found,
  parse_cert, parse_kubeconfig_cert, detect_pki, detect_kubeconfigs, detect,
}
use cert_rotator.Detector.Frame.{parse_cert-FileIs, parse_kubeconfig_cert-FileIs, detect_pki-FileIs}
use cert_rotator.Detector.Kept.{Has, Has-last, detect_pki-kept, detect_kubeconfigs-kept}
use cert_rotator.Detector.Shown.{
  Entry, FromPem, FromKubeconfig, own_names, no_names, classified-Entry, parse_cert-ok,
  parse_kubeconfig_cert-ok,
}

module _ (env : Env) (d : Detector) (name : String) (path : FilePath) (x : Option File) where
  -- The entry of the certificate that a file of the PKI directory holds.
  abbrev pub InPki : CertInfo → Type 0
  InPki = Entry env d (FromPem env x) own_names name path

  -- The entry of the certificate that is embedded in a kubeconfig.
  abbrev pub InKubeconfig : CertInfo → Type 0
  InKubeconfig = Entry env d (FromKubeconfig env path x) no_names name path

  parse_cert-InPki :
      (n : String) (p : FilePath) (w : World) {info : CertInfo} {w' : World}
      → n ≡ name
      → p ≡ path
      → w.files path ≡ x
      → parse_cert env n p w ≡ (Result.ok info, w')
      → InPki (classified d info)
  parse_cert-InPki n p w {info} {w'} is_name is_path at_x done =
      let parsed : parse_cert env name path w ≡ (Result.ok info, w') =
        subst (λ q. parse_cert env name q w ≡ (Result.ok info, w')) is_path
          (subst (λ m. parse_cert env m p w ≡ (Result.ok info, w')) is_name done) in
      let (cert, k, from, is_info) = parse_cert-ok env name path w parsed in
      classified-Entry env d (FromPem env x) own_names name path cert k info
        (subst (λ y. FromPem env y cert) at_x from) is_info

  detect_pki-Has :
      (rel : FilePath) (files : List (String × FilePath)) (certs : List CertInfo) (w : World)
      {out : List CertInfo} {w' : World}
      → d.pki_dir ++ rel ≡ path
      → w.files path ≡ x
      → Listed name rel files
      → detect_pki env d files certs w ≡ (Result.ok out, w')
      → Has InPki out
  unfolding detect_pki
  detect_pki-Has rel [] certs w is_path at_x listed done = elim listed [ ]
  detect_pki-Has rel ((n, r) ∷ files) certs w is_path at_x (inl (is_name, is_rel)) done =
      let (info, w1, e1, d1) = >>=-eq-ok _ _ w done in
      let shown =
        parse_cert-InPki n (d.pki_dir ++ r) w is_name (ap (λ q. d.pki_dir ++ q) is_rel ∙ is_path)
          at_x (wrap-eq-ok _ _ w e1) in
      Ensures-ok (Has InPki) _ w1
        (detect_pki-kept InPki env d files _ (Has-last InPki certs (classified d info) shown)) d1
  detect_pki-Has rel ((n, r) ∷ files) certs w is_path at_x (inr later) done =
      let (info, w1, e1, d1) = >>=-eq-ok _ _ w done in
      let at_w1 =
        stays path (parse_cert env n (d.pki_dir ++ r)) w (parse_cert-FileIs env n _) at_x
          (wrap-eq-ok _ _ w e1) in
      detect_pki-Has rel files _ w1 is_path at_w1 later d1

  parse_kubeconfig_cert-InKubeconfig :
      (n : String) (p : FilePath) (w : World) (certs : List CertInfo) {r : Option CertInfo}
      {w' : World}
      → n ≡ name
      → p ≡ path
      → w.files path ≡ x
      → parse_kubeconfig_cert env n p w ≡ (Result.ok r, w')
      → (x ≡ none) ⊎ Has InKubeconfig (append_found d certs r)
  unfolding append_found
  parse_kubeconfig_cert-InKubeconfig n p w certs {r} {w'} is_name is_path at_x done =
      let parsed : parse_kubeconfig_cert env name path w ≡ (Result.ok r, w') =
        subst (λ q. parse_kubeconfig_cert env name q w ≡ (Result.ok r, w')) is_path
          (subst (λ m. parse_kubeconfig_cert env m p w ≡ (Result.ok r, w')) is_name done) in
      elim (parse_kubeconfig_cert-ok env name path w parsed) [
        | inl missing ↦ inl (sym at_x ∙ missing)
        | inr (info, cert, k, is_some, from, is_info) ↦
            let shown =
              classified-Entry env d (FromKubeconfig env path x) no_names name path cert k info
                (subst (λ y. FromKubeconfig env path y cert) at_x from) is_info in
            inr (
              subst (λ y. Has InKubeconfig (append_found d certs y)) (sym is_some)
                (Has-last InKubeconfig certs (classified d info) shown))
      ]

  detect_kubeconfigs-Has :
      (rel : FilePath) (files : List (String × FilePath)) (certs : List CertInfo) (w : World)
      {out : List CertInfo} {w' : World}
      → d.kubeconfig_dir ++ rel ≡ path
      → w.files path ≡ x
      → Listed name rel files
      → detect_kubeconfigs env d files certs w ≡ (Result.ok out, w')
      → (x ≡ none) ⊎ Has InKubeconfig out
  unfolding detect_kubeconfigs
  detect_kubeconfigs-Has rel [] certs w is_path at_x listed done = elim listed [ ]
  detect_kubeconfigs-Has rel ((n, r) ∷ files) certs w is_path at_x (inl (is_name, is_rel)) done =
      let (found, w1, e1, d1) = >>=-eq-ok _ _ w done in
      elim (parse_kubeconfig_cert-InKubeconfig n (d.kubeconfig_dir ++ r) w certs is_name
        (ap (λ q. d.kubeconfig_dir ++ q) is_rel ∙ is_path) at_x (wrap-eq-ok _ _ w e1)) [
          | inl missing ↦ inl missing
          | inr shown ↦ inr (
              Ensures-ok (Has InKubeconfig) _ w1
                (detect_kubeconfigs-kept InKubeconfig env d files _ shown) d1)
        ]
  detect_kubeconfigs-Has rel ((n, r) ∷ files) certs w is_path at_x (inr later) done =
      let (found, w1, e1, d1) = >>=-eq-ok _ _ w done in
      let at_w1 =
        stays path (parse_kubeconfig_cert env n (d.kubeconfig_dir ++ r)) w
          (parse_kubeconfig_cert-FileIs env n _) at_x (wrap-eq-ok _ _ w e1) in
      detect_kubeconfigs-Has rel files _ w1 is_path at_w1 later d1

range_map-Listed :
    {V : Type 0} (env : Env) (name : String) (v : V) (m : Dict V)
    → ((n : ℕ) → contains name (env.order n (keys m)) ≡ true)
    → lookup name m ≡ some v
    → Ensures (Listed name v) (range_map env m)
unfolding range_map
range_map-Listed env name v m visits known =
    Ensures-bind next_call _ (Ensures-any _)
      λ n _. Ensures-pure _ (select-Listed name v _ m (visits n) known)

-- If a detection returns a result, each certificate of the control plane that has a file of its own
-- has an entry in it, which is that of the certificate that was in this file below the PKI directory
-- before; and each kubeconfig has an entry, which is that of the first client certificate that was
-- embedded in the file before, unless there was no such file. An entry has the name, the path, the
-- expiry and the common name of the certificate, the DNS names and addresses of one that is not
-- embedded, the days that are left at a moment of the clock, and the class of these days. The
-- conditions: the loops over the maps visit the certificate's and the kubeconfig's name.
pub detect-Covers :
    (env : Env) (d : Detector) (node name conf : String) (rel rel_conf : FilePath) (w : World)
    (r : DetectionResult) (w' : World)
    → ((n : ℕ) → contains name (env.order n (keys cert_files)) ≡ true)
    → ((n : ℕ) → contains conf (env.order n (keys kubeconfig_certs)) ≡ true)
    → lookup name cert_files ≡ some rel
    → lookup conf kubeconfig_certs ≡ some rel_conf
    → detect env d node w ≡ (Result.ok r, w')
    → (let path = d.pki_dir ++ rel in Has (InPki env d name path (w.files path)) r.certs)
      × (let path = d.kubeconfig_dir ++ rel_conf in
          (w.files path ≡ none) ⊎ Has (InKubeconfig env d conf path (w.files path)) r.certs)
unfolding detect
detect-Covers env d node name conf rel rel_conf w r w' visits_1 visits_2 known_1 known_2 done =
    let pki = d.pki_dir ++ rel in
    let kube = d.kubeconfig_dir ++ rel_conf in
    let (files, w1, e1, d1) = >>=-eq-ok _ _ w done in
    let same_1 =
      λ (q : FilePath). stays q (range_map env cert_files) w (search file_rules) refl e1 in
    let listed_1 =
      Ensures-ok (Listed name rel) _ w (range_map-Listed env name rel cert_files visits_1 known_1)
        e1 in
    let (certs, w2, e2, d2) = >>=-eq-ok _ _ w1 d1 in
    let same_2 = λ (q : FilePath).
      stays q (detect_pki env d files []) w1 (detect_pki-FileIs env d files []) (same_1 q) e2 in
    let in_pki =
      detect_pki-Has env d name pki (w.files pki) rel files [] w1 refl (same_1 pki) listed_1 e2 in
    let (confs, w3, e3, d3) = >>=-eq-ok _ _ w2 d2 in
    let same_3 = λ (q : FilePath).
      stays q (range_map env kubeconfig_certs) w2 (search file_rules) (same_2 q) e3 in
    let listed_2 =
      Ensures-ok (Listed conf rel_conf) _ w2
        (range_map-Listed env conf rel_conf kubeconfig_certs visits_2 known_2) e3 in
    let (all, w4, e4, d4) = >>=-eq-ok _ _ w3 d3 in
    let (is_r, _) = pure-ok _ w4 d4 in
    let in_all =
      Ensures-ok (Has (InPki env d name pki (w.files pki))) _ w3
        (detect_kubeconfigs-kept _ env d confs certs in_pki) e4 in
    let in_kube =
      detect_kubeconfigs-Has env d conf kube (w.files kube) rel_conf confs certs w3 refl
        (same_3 kube) listed_2 e4 in
    let same_certs : all ≡ r.certs = ap DetectionResult.certs is_r in
    (
      subst (Has (InPki env d name pki (w.files pki))) same_certs in_all,
      subst (λ l. (w.files kube ≡ none) ⊎ Has (InKubeconfig env d conf kube (w.files kube)) l)
          same_certs in_kube,
    )
