-- ===== src/Writer/Owner.antt =====
-- No two certificates are written to the same file.
use mathlib.Core.Path.{subst}
use cert_rotator.Base.{
  Bool-cases, inl, inr, String, string_eq, string_dec, path_eq, false, ◌||◌, [], ◌∷◌, ◌++◌, All,
  Option, none, some, ◌==◌, ◌≡◌, ◌≢◌, refl, sym, ap, ◌∙◌, arith, if◌then◌else◌,
}
use cert_rotator.Base.Dict.{Dict, lookup}
use cert_rotator.Api.{FilePath}
use cert_rotator.Writer.{cert_paths}

-- The certificate that a file belongs to.
owner : Dict (FilePath × FilePath) → FilePath → Option String
owner [] q = none
owner ((name, (cert, key)) ∷ table) q = if cert == q || key == q then some name else owner table q

abbrev Owned : String × (FilePath × FilePath) → Type 0
Owned (name, (cert, key)) =
    (owner cert_paths cert ≡ some name)
    × (owner cert_paths key ≡ some name)
    × ((cert == key) ≡ false)

cert_paths-Owned : All Owned cert_paths
unfolding owner path_eq string_eq string_dec
cert_paths-Owned = (
  (refl, refl, refl),
  (
    (refl, refl, refl),
    (
      (refl, refl, refl),
      ((refl, refl, refl), ((refl, refl, refl), ((refl, refl, refl), ((refl, refl, refl), tt)))),
    ),
  ),
)

lookup-All :
    {V : Type 0} (P : String × V → Type 0) (name : String) (table : Dict V) {v : V}
    → All P table
    → lookup name table ≡ some v
    → P (name, v)
lookup-All P name [] all found = absurd (cc)
lookup-All P name ((k, u) ∷ table) {v} (here, there) found = elim (Bool-cases (name == k)) [
  | inl same ↦
      let is_name : k ≡ name = ground (arith, same) in
      let is_value : u ≡ v = ground (arith, same, found) in
      subst P (λ i. (is_name i, is_value i)) here
  | inr differ ↦ lookup-All P name table there (ground (arith, differ, found))
]

append_cancel : (d p q : FilePath) → d ++ p ≡ d ++ q → p ≡ q
append_cancel [] p q e = e
append_cancel (c ∷ d) p q e = append_cancel d p q (ground (arith, e))

-- A file below the directory, other than the pair of a name.
pub record IsOther (pki_dir : FilePath) (q : FilePath) (name : String) : Type 0 where
  pub apart :
      {cert key : FilePath}
      → lookup name cert_paths ≡ some (cert, key)
      → (pki_dir ++ cert ≢ q) × (pki_dir ++ key ≢ q)

pub cert-apart-key :
    (pki_dir : FilePath) (name : String) {cert key : FilePath}
    → lookup name cert_paths ≡ some (cert, key)
    → pki_dir ++ cert ≢ pki_dir ++ key
cert-apart-key pki_dir name {cert} {key} found =
    let (_, _, differ) = lookup-All Owned name cert_paths cert_paths-Owned found in
    let ne : cert ≢ key = ground (arith, differ) in λ e. ne (append_cancel pki_dir cert key e)

-- The files of one name are not those of another.
module _ (pki_dir : FilePath) (mine theirs : String) {cert key : FilePath}
    (found : lookup mine cert_paths ≡ some (cert, key)) (ne : theirs ≢ mine) where
  owners_apart :
      (p q : FilePath)
      → owner cert_paths p ≡ some theirs
      → owner cert_paths q ≡ some mine
      → pki_dir ++ p ≢ pki_dir ++ q
  owners_apart p q owns_p owns_q = λ e.
      let same : some theirs ≡ some mine =
        sym owns_p ∙ ap (owner cert_paths) (append_cancel pki_dir p q e) ∙ owns_q in
      ne (ground (arith, same))

  pub cert-IsOther : IsOther pki_dir (pki_dir ++ cert) theirs
  cert-IsOther = record {
    apart = λ {cert = c} {key = k} found_theirs.
        let (own_c, own_k, _) = lookup-All Owned theirs cert_paths cert_paths-Owned found_theirs in
        let (own_cert, _, _) = lookup-All Owned mine cert_paths cert_paths-Owned found in
        (owners_apart c cert own_c own_cert, owners_apart k cert own_k own_cert);
  }

  pub key-IsOther : IsOther pki_dir (pki_dir ++ key) theirs
  key-IsOther = record {
    apart = λ {cert = c} {key = k} found_theirs.
        let (own_c, own_k, _) = lookup-All Owned theirs cert_paths cert_paths-Owned found_theirs in
        let (_, own_key, _) = lookup-All Owned mine cert_paths cert_paths-Owned found in
        (owners_apart c key own_c own_key, owners_apart k key own_k own_key);
  }
