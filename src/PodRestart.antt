-- ===== src/PodRestart.antt =====
-- Restarts of static pods by an annotation in their manifests (pkg/podrestart/podrestart.go).
pub mod Annotation
pub mod Rewrite
pub mod Frame
pub mod Wait
use cert_rotator.Base.{
  String, ◌<>◌, Bool, true, false, List, [], ◌∷◌, ◌++◌, Option, none, some, ◌⊎◌, inl, inr, ◌==◌,
  string_eq, if◌then◌else◌,
}
use cert_rotator.Api.{FilePath}
use cert_rotator.Detector.{lookup_field}
use cert_rotator.Host.{
  Env, Bytes, Error, not_exist, message, wrapped, Value, str, dict, Fields, end, field, path_text,
  Exec, pure, fail, crash, wrap, attempt, lift, now, stat, read_file, write_file, sleep, ◌>>=◌,
  ◌>>◌,
}

abbrev pub restart_order : List String
restart_order = "etcd" ∷ "kube-apiserver" ∷ "kube-controller-manager" ∷ "kube-scheduler" ∷ []

pub record Manager : Type 0 where
  pub manifest_dir : FilePath
  pub dry_run : Bool

-- `m[key] = v`
unfoldable pub set_field : String → Value → Fields → Fields
set_field key v end = field key v end
set_field key v (field k w fs) = if key == k then field key v fs else field k w (set_field key v fs)

-- `v, ok := m[key].(map[string]interface{})`, with a new map where that fails
unfoldable pub submap : String → Fields → Fields
submap key fs = elim (lookup_field key fs) [ some (dict m) ↦ m | _ ↦ end ]

abbrev pub annotation_key : String
annotation_key = "cert-rotator/restarted-at"

-- The manifest with the annotation. The inner maps are shared with the outer ones.
unfoldable pub annotate : String → Fields → Fields
annotate stamp manifest =
    let metadata = submap "metadata" manifest in
    let annotations = set_field annotation_key (str stamp) (submap "annotations" metadata) in
    set_field "metadata" (dict (set_field "annotations" (dict annotations) metadata)) manifest

-- A store into the nil map of an empty document panics.
unfoldable pub annotated : Env → Option Fields → Exec Fields
annotated env none = crash "assignment to entry in nil map"
annotated env (some manifest) = do
  t ← now env
  pure (annotate (env.format "2006-01-02T15:04:05Z07:00" t) manifest)

unfoldable pub inject_restart_annotation : Env → Bytes → Exec Bytes
inject_restart_annotation env bytes = do
  raw ← wrap "parsing manifest" (lift (env.yaml_unmarshal bytes))
  manifest ← annotated env raw
  wrap "marshalling updated manifest" (lift (env.yaml_marshal manifest))

abbrev pub is_not_exist : {A : Type 0} → Error ⊎ A → Bool
is_not_exist (inl (not_exist s)) = true
is_not_exist (inl (message s)) = false
is_not_exist (inl (wrapped s e)) = false
is_not_exist (inr a) = false

abbrev pub manifest : Manager → String → String → FilePath
manifest m name suffix = m.manifest_dir ++ ((name <> suffix) ∷ [])

-- The suffix of the manifest that exists. Another error of `os.Stat` than absence is taken for existence.
unfoldable pub find_manifest : Env → Manager → String → Exec String
find_manifest env m name = do
  yaml ← attempt (stat env (manifest m name ".yaml"))
  if is_not_exist yaml
      then (do
        yml ← attempt (stat env (manifest m name ".yml"))
        if is_not_exist yml
            then fail
                (message ("manifest not found for " <> name <> " in " <> path_text m.manifest_dir))
            else pure ".yml")
      else pure ".yaml"

unfoldable pub rewrite_manifest : Env → String → FilePath → Exec (Unit {0})
rewrite_manifest env name path = do
  bytes ← wrap ("reading manifest " <> path_text path) (read_file env path)
  updated ←
      wrap ("injecting restart annotation into " <> name) (inject_restart_annotation env bytes)
  info ← wrap ("statting manifest " <> path_text path) (stat env path)
  wrap ("writing manifest " <> path_text path) (write_file env path updated info.mode)

unfoldable pub restart : Env → Manager → String → Exec (Unit {0})
restart env m name = do
  suffix ← find_manifest env m name
  if m.dry_run then pure tt else rewrite_manifest env name (manifest m name suffix)

unfoldable pub restart_each : Env → Manager → List String → Exec (Unit {0})
restart_each env m [] = pure tt
restart_each env m (name ∷ names) = do
  wrap ("restarting " <> name) (restart env m name)
  (if m.dry_run then pure tt else sleep 10)
  restart_each env m names

unfoldable pub restart_all : Env → Manager → Exec (Unit {0})
restart_all env m = restart_each env m restart_order
