-- ===== src/PodRestart/Rewrite.antt =====
-- What a restart does to a manifest.
use cert_rotator.Base.{
  String, ◌⊎◌, false, Option, none, some, inl, inr, ◌≡◌, refl, ap, sym, ◌∙◌, arith,
}
use cert_rotator.Api.{FilePath}
use cert_rotator.Host.{Env, Bytes, File, Fields, World, ok, mode_of, crash}
use cert_rotator.Host.Frame.{FileIs}
use cert_rotator.Host.Ensures.{
  Ensures, Ensures-bind, Ensures-any, Ensures-if, Ensures-fail, Ensures-pure, Ensures-ok,
}
use cert_rotator.Host.Inversion.{>>=-eq-ok, wrap-eq-ok, Keeps-eq}
use cert_rotator.Host.Written.{lift-ok, pure-ok, write_file_writes, stat-ok, read_file-ok}
use cert_rotator.PodRestart.{
  Manager, annotate, annotated, inject_restart_annotation, manifest, find_manifest, is_not_exist,
  rewrite_manifest, restart,
}
use cert_rotator.PodRestart.Frame.{inject-FileIs, find_manifest-FileIs}

annotated-ok :
    (env : Env) (raw : Option Fields) (w : World) {m : Fields} {w' : World}
    → annotated env raw w ≡ (ok m, w')
    → (old : Fields) × (stamp : String) × (raw ≡ some old) × (annotate stamp old ≡ m)
unfolding annotated crash
annotated-ok env none w done = absurd (cc)
annotated-ok env (some old) w done =
    let (t, w1, e1, d1) = >>=-eq-ok _ _ w done in
    (old, env.format "2006-01-02T15:04:05Z07:00" t, refl, (pure-ok _ w1 d1).0)

-- The text is that of the manifest that the old text holds, with a new annotation.
abbrev pub Annotated : Env → Bytes → Bytes → Type 0
Annotated env old new =
    (m : Fields) × (stamp : String) × (env.yaml_unmarshal old ≡ inr (some m))
    × (env.yaml_marshal (annotate stamp m) ≡ inr new)

inject-ok :
    (env : Env) (bytes : Bytes) (w : World) {new : Bytes} {w' : World}
    → inject_restart_annotation env bytes w ≡ (ok new, w')
    → Annotated env bytes new
unfolding inject_restart_annotation
inject-ok env bytes w done =
    let (raw, w1, e1, d1) = >>=-eq-ok _ _ w done in
    let (parsed, _) = lift-ok (env.yaml_unmarshal bytes) w (wrap-eq-ok _ _ w e1) in
    let (m, w2, e2, d2) = >>=-eq-ok _ _ w1 d1 in
    let (old, stamp, is_raw, is_m) = annotated-ok env raw w1 e2 in
    let (printed, _) = lift-ok (env.yaml_marshal m) w2 (wrap-eq-ok _ _ w2 d2) in
    (old, stamp, parsed ∙ ap inr is_raw, ap env.yaml_marshal is_m ∙ printed)

-- The manifest at this path was rewritten, its mode kept.
abbrev pub Rewritten : Env → FilePath → World → World → Type 0
Rewritten env path w w' =
    (old : File) × (new : Bytes) × (w.files path ≡ some old)
    × Annotated env old.content new
    × (w'.files path ≡ some (record { content = new; mode = old.mode }))

rewrite_manifest-ok :
    (env : Env) (name : String) (path : FilePath) (w : World) {w' : World}
    → rewrite_manifest env name path w ≡ (ok tt, w')
    → Rewritten env path w w'
unfolding rewrite_manifest
rewrite_manifest-ok env name path w {w'} done =
    let (bytes, w1, e1, d1) = >>=-eq-ok _ _ w done in
    let (old, there, is_bytes, kept) = read_file-ok env path w (wrap-eq-ok _ _ w e1) in
    let (new, w2, e2, d2) = >>=-eq-ok _ _ w1 d1 in
    let injected = wrap-eq-ok _ _ w1 e2 in
    let kept2 =
      (Keeps-eq (FileIs path (some old)) (inject_restart_annotation env bytes) w1
        (inject-FileIs env bytes) (record { same = rw kept there }) injected).same in
    let (info, w3, e3, d3) = >>=-eq-ok _ _ w2 d2 in
    let (is_info, kept3) = stat-ok env path w2 (wrap-eq-ok _ _ w2 e3) in
    let written = write_file_writes env path new info.mode w3 (wrap-eq-ok _ _ w3 d3) in
    (
      old,
      new,
      there,
      rw (sym is_bytes) at (inject-ok env bytes w1 injected),
      written
          ∙ ap (λ (o : Option File). some (record { content = new; mode = mode_of o info.mode }))
              (ap (λ fs. fs path) kept3 ∙ kept2),
    )

-- The two suffixes that are looked for.
abbrev IsSuffix : String → Type 0
IsSuffix suffix = (suffix ≡ ".yaml") ⊎ (suffix ≡ ".yml")

find_manifest-IsSuffix :
    (env : Env) (m : Manager) (name : String) → Ensures IsSuffix (find_manifest env m name)
unfolding find_manifest
find_manifest-IsSuffix env m name = Ensures-bind _ _ (Ensures-any _) λ yaml _.
    Ensures-if (is_not_exist yaml) _ _
      (λ _. Ensures-bind _ _ (Ensures-any _) λ yml _.
        Ensures-if (is_not_exist yml) _ _ (λ _. Ensures-fail _) (λ _. Ensures-pure _ (inr refl)))
      (λ _. Ensures-pure _ (inl refl))

-- A restart that ends well, not in a dry run, has rewritten the manifest name.yaml or name.yml: it
-- holds what its old content says with the restart annotation added, and its mode is as before.
pub restart-ok :
    (env : Env) (m : Manager) (name : String) (w w' : World)
    → m.dry_run ≡ false
    → restart env m name w ≡ (ok tt, w')
    → (suffix : String) × ((suffix ≡ ".yaml") ⊎ (suffix ≡ ".yml"))
      × Rewritten env (manifest m name suffix) w w'
unfolding restart
restart-ok env m name w w' real done =
    let (suffix, w1, e1, d1) = >>=-eq-ok _ _ w done in
    let path = manifest m name suffix in
    let kept =
      (Keeps-eq (FileIs path (w.files path)) (find_manifest env m name) w
        (find_manifest-FileIs env m name) (record { same = refl }) e1).same in
    let (old, new, there, annotated, written) =
      rewrite_manifest-ok env name path w1 {w' = w'} (ground (arith, real, d1)) in
    (
      suffix,
      Ensures-ok IsSuffix (find_manifest env m name) w (find_manifest-IsSuffix env m name) e1,
      (old, new, sym kept ∙ there, annotated, written),
    )
