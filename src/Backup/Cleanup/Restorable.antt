-- ===== src/Backup/Cleanup/Restorable.antt =====
-- A backup that is recent enough outlives a cleanup.
use mathlib.Core.List.{append_assoc}
use cert_rotator.Base.{
  String, string_eq, path_eq, Bool, true, false, ◌&&◌, any, All, List, [], ◌∷◌, ◌++◌, some, inr,
  ◌==◌, ◌≡◌, ◌≢◌, refl, sym, ap, ◌∙◌, arith, contains, Bool-cases, inl,
}
use cert_rotator.Base.Int.{ℤ}
use cert_rotator.Api.{Time, FilePath}
use cert_rotator.Host.{Env, File, World, ok, is_prefix}
use cert_rotator.Host.Inversion.{>>=-eq-ok}
use cert_rotator.Backup.{Manager, Backup, create, restore, pki_files, kubeconfig_files}
use cert_rotator.Backup.RoundTrip.{described, restore-create}
use cert_rotator.Backup.Cleanup.{Entry, Calendar, is_old, cleanup}
use cert_rotator.Backup.Cleanup.Retention.{doomed, cutoff_at, cleanup_keeps}

-- A backup has a directory of its own below the node's.
pub create-path :
    (env : Env) (m : Manager) (node : String) (w : World) {b : Backup} {w1 : World}
    → create env m node w ≡ (ok b, w1)
    → (stamp : String) × (b.backup_path ≡ m.backup_dir ++ (node ∷ stamp ∷ []))
unfolding create
create-path env m node w created =
    let (t, w1, e1, d1) = >>=-eq-ok _ _ w created in
    let (_, w2, e2, d2) = >>=-eq-ok _ _ w1 d1 in
    (env.format "2006-01-02T15-04-05Z" t, (described env node _ w2 d2).0)

is_prefix_entry :
    (d p : FilePath) (a stamp : String)
    → is_prefix (d ++ (a ∷ [])) (d ++ (stamp ∷ p)) ≡ (a == stamp)
is_prefix_entry [] p a stamp = ground arith
is_prefix_entry (c ∷ d) p a stamp = ground (arith, is_prefix_entry d p a stamp)

-- The listing has an old entry at this path.
abbrev pub is_outdated : Time → FilePath → FilePath → List Entry → Bool
is_outdated cutoff node_dir path = any (λ e. is_old cutoff e && (node_dir ++ (e.name ∷ [])) == path)

none_doomed :
    (cutoff : Time) (node_dir p : FilePath) (stamp : String) (b : Backup) (entries : List Entry)
    → b.backup_path ≡ node_dir ++ (stamp ∷ [])
    → is_outdated cutoff node_dir b.backup_path entries ≡ false
    → any (doomed cutoff node_dir (node_dir ++ (stamp ∷ p))) entries ≡ false
none_doomed cutoff node_dir p stamp b [] at_path recent = refl
none_doomed cutoff node_dir p stamp b (e ∷ entries) at_path recent =
    let rest = none_doomed cutoff node_dir p stamp b entries at_path (ground (arith, recent)) in
    let below = is_prefix_entry node_dir p e.name stamp in
    elim (Bool-cases (e.name == stamp)) [
      | inl same ↦
          let name : e.name ≡ stamp = ground (arith, same) in
          let at_entry : node_dir ++ (e.name ∷ []) ≡ b.backup_path =
            ap (λ n. node_dir ++ (n ∷ [])) name ∙ sym at_path in
          ground (arith, recent, at_entry, rest)
      | inr other ↦ ground (arith, below, other, rest)
    ]

-- A certificate or key file that `create` backs up has its content of then again after a cleanup of
-- the node's backups and a restoration from this backup. The conditions are those of the round
-- trip without the cleanup, with the files of the backup the same when the cleanup begins, and the
-- cleanup finds this backup in its listing, if at all, with a time that is not before its cutoff.
pub restore-cleanup :
    (env : Env) (cal : Calendar) (m : Manager) (node : String) (keep_days : ℤ) (rel : FilePath)
    (w v : World) {f : File} {b : Backup} {w1 w3 : World}
    → ((p q : FilePath) → m.backup_dir ++ p ≢ m.pki_dir ++ q)
    → All (λ file. m.kubeconfig_dir ++ file ≢ m.pki_dir ++ rel) kubeconfig_files
    → contains rel pki_files ≡ true
    → w.files (m.pki_dir ++ rel) ≡ some f
    → create env m node w ≡ (ok b, w1)
    → ((p : FilePath) → v.files (b.backup_path ++ p) ≡ w1.files (b.backup_path ++ p))
    → ((entries : List Entry)
        → cal.read_dir v.calls (m.backup_dir ++ (node ∷ [])) ≡ inr entries
        → is_outdated
            (cutoff_at env cal keep_days v)
            (m.backup_dir ++ (node ∷ []))
            b.backup_path
            entries
          ≡ false)
    → restore env m b.backup_path (cleanup env cal m node keep_days v).1 ≡ (ok tt, w3)
    → (g : File) × (w3.files (m.pki_dir ++ rel) ≡ some g) × (g.content ≡ f.content)
restore-cleanup env cal m node keep_days rel w v {f} {b} {w1} {w3} apart others listed there created
      untouched recent restored =
    let node_dir = m.backup_dir ++ (node ∷ []) in
    let (stamp, at_path) = create-path env m node w created in
    let below : b.backup_path ≡ node_dir ++ (stamp ∷ []) =
      at_path ∙ sym (append_assoc m.backup_dir (node ∷ []) (stamp ∷ [])) in
    let kept : (p : FilePath)
        → (cleanup env cal m node keep_days v).1.files (b.backup_path ++ p)
          ≡ w1.files (b.backup_path ++ p) =
      λ p.
        let here : b.backup_path ++ p ≡ node_dir ++ (stamp ∷ p) =
          ap (λ d. d ++ p) below ∙ append_assoc node_dir (stamp ∷ []) p in
        ap (cleanup env cal m node keep_days v).1.files here
        ∙ cleanup_keeps env cal m node keep_days (node_dir ++ (stamp ∷ p)) v (λ entries listing.
          none_doomed (cutoff_at env cal keep_days v) node_dir p stamp b entries below
            (recent entries listing))
        ∙ ap v.files (sym here)
        ∙ untouched p in
    restore-create env m node rel w (cleanup env cal m node keep_days v).1 apart others listed there
      created kept restored
