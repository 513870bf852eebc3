-- ===== src/Tests/Passes.antt =====
-- Examples of passes of the reconciler.
use mathlib.Core.Path.{subst}
use cert_rotator.Base.{[], ◌∷◌, none, inr, ◌≡◌, refl, ap, string_eq, string_dec, path_eq}
use cert_rotator.Api.{CertRotationConfigSpec}
use cert_rotator.Host.{World, Fetched, absent, unreachable, found}
use cert_rotator.State.{Json, new}
use cert_rotator.Controller.{reconcile}
use cert_rotator.Controller.Frame.{reconcile-keeps, Outside}
use cert_rotator.Tests.Outside.{env, spec, with_files}

abbrev json : Json
json = record { marshal = λ _. inr (3 ∷ []); unmarshal = λ _. inr new }

-- A node with an expired certificate, its CA and the manifests of the control plane.
abbrev pub start : World
start = with_files (
    ("pki" ∷ "apiserver.crt" ∷ [])
    ∷ ("etc" ∷ "kubernetes" ∷ "pki" ∷ "ca.crt" ∷ [])
    ∷ ("etc" ∷ "kubernetes" ∷ "pki" ∷ "ca.key" ∷ [])
    ∷ ("manifests" ∷ "etcd.yaml" ∷ [])
    ∷ ("manifests" ∷ "kube-apiserver.yaml" ∷ [])
    ∷ ("manifests" ∷ "kube-controller-manager.yaml" ∷ [])
    ∷ ("manifests" ∷ "kube-scheduler.yaml" ∷ [])
    ∷ [])

abbrev spec_of : Fetched → CertRotationConfigSpec
spec_of absent = spec
spec_of (unreachable e) = spec
spec_of (found s st) = s

etc-Outside : Outside ("etc" ∷ []) spec
unfolding string_eq string_dec
etc-Outside = (refl, λ _. refl, λ _. refl)

reconcile-keeps_example : (reconcile env json "n1" start).1.files ("etc" ∷ []) ≡ none
unfolding path_eq
reconcile-keeps_example =
    reconcile-keeps env json "n1" ("etc" ∷ []) start
      (λ s st e. subst (Outside ("etc" ∷ [])) (ap spec_of e) etc-Outside)
