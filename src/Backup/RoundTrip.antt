-- ===== src/Backup/RoundTrip.antt =====
-- A backup followed by its restoration gives the certificate files their old content.
use mathlib.Core.List.{append_assoc}
use cert_rotator.Base.{
  String, List, [], ◌∷◌, ◌++◌, true, Option, some, ◌≡◌, ◌≢◌, refl, path_eq, string_eq, contains,
  All, sym, ◌∙◌, string_dec, ap,
}
use cert_rotator.Api.{Time, FilePath}
use cert_rotator.Host.{Env, Bytes, File, World, ok, pure, now, next_call, wrap, ◌>>=◌, mkdir_all}
use cert_rotator.Host.Keeps.{Keeps, Keeps-bind}
use cert_rotator.Host.Frame.{FileIs, file_rules}
use cert_rotator.Host.Inversion.{>>=-eq-ok, Keeps-eq}
use cert_rotator.Backup.{
  Manager, Backup, copy_kubeconfigs, copy_to_backup, create, restore, pki_files, kubeconfig_files,
}
use cert_rotator.Backup.Frame.{copy_optional-FileIs}
use cert_rotator.Backup.Copy.{Holds}
use cert_rotator.Backup.Loops.{Distinct, append-injective, copy_pki_copies}

pki_files-Distinct : Distinct pki_files
unfolding path_eq string_eq string_dec
pki_files-Distinct = (
  refl,
  (
    refl,
    (
      refl,
      (
        refl,
        (
          refl,
          (
            refl,
            (
              refl,
              (
                refl,
                (
                  refl,
                  (
                    refl,
                    (
                      refl,
                      (refl, (refl, (refl, (refl, (refl, (refl, (refl, (refl, (refl, tt))))))))),
                    ),
                  ),
                ),
              ),
            ),
          ),
        ),
      ),
    ),
  ),
)

-- The kubeconfig loop leaves alone what none of its targets is.
copy_kubeconfigs-FileIs_other :
    (env : Env) (b : String) (src dst q : FilePath) {x : Option File} (files : List FilePath)
    → All (λ file. dst ++ file ≢ q) files
    → Keeps (FileIs q x) (copy_kubeconfigs env b src dst files)
unfolding copy_kubeconfigs
copy_kubeconfigs-FileIs_other env b src dst q [] out = search file_rules
copy_kubeconfigs-FileIs_other env b src dst q (file ∷ files) out =
    Keeps-bind _ _ (copy_optional-FileIs env _ _ _ out.0)
      λ _. copy_kubeconfigs-FileIs_other env b src dst q files out.1

abbrev head : FilePath → String
head [] = ""
head (c ∷ p) = c

names-ne : ◌≢◌ {A = String} "kubeconfigs" "pki"
unfolding string_dec string_eq
names-ne = cc

-- The directories of a backup are told apart by their names.
kubeconfigs-ne-pki :
    (path p q : FilePath) → (path ++ ("kubeconfigs" ∷ [])) ++ p ≢ (path ++ ("pki" ∷ [])) ++ q
kubeconfigs-ne-pki path p q = λ e.
    let tails : "kubeconfigs" ∷ p ≡ "pki" ∷ q =
      append-injective path _ _
        (sym (append_assoc path ("kubeconfigs" ∷ []) p) ∙ e ∙ append_assoc path ("pki" ∷ []) q) in
    names-ne (ap head tails)

All-always : {P : FilePath → Type 0} → ((p : FilePath) → P p) → (ps : List FilePath) → All P ps
All-always h [] = tt
All-always h (p ∷ ps) = (h p, All-always h ps)

-- Making a directory leaves the files as they are.
mkdir_same :
    (env : Env) (text : String) (p q : FilePath) (w : World) {f : File} {u : Unit {0}} {w' : World}
    → w.files q ≡ some f
    → wrap text (mkdir_all env p) w ≡ (ok u, w')
    → w'.files q ≡ some f
mkdir_same env text p q w {f} there made =
    (Keeps-eq (FileIs q (some f)) (wrap text (mkdir_all env p)) w (search file_rules)
      (record { same = there }) made).same

-- A file that the certificate directory has is in the directory that the backup wrote.
copy_to_backup_copies :
    (env : Env) (m : Manager) (path rel : FilePath) (w : World) {f : File} {w' : World}
    → ((p q : FilePath) → path ++ p ≢ m.pki_dir ++ q)
    → contains rel pki_files ≡ true
    → w.files (m.pki_dir ++ rel) ≡ some f
    → copy_to_backup env m path w ≡ (ok tt, w')
    → Holds f.content ((path ++ ("pki" ∷ [])) ++ rel) w'
unfolding copy_to_backup
copy_to_backup_copies env m path rel w {f} {w'} apart listed there done =
    let pki = path ++ ("pki" ∷ []) in
    let (_, w1, e1, done1) = >>=-eq-ok _ _ w done in
    let (_, w2, e2, done2) = >>=-eq-ok _ _ w1 done1 in
    let (_, w3, e3, done3) = >>=-eq-ok _ _ w2 done2 in
    let k2 = mkdir_same env _ _ _ w1 (mkdir_same env _ _ _ w there e1) e2 in
    let (g, is_g, same) =
      copy_pki_copies env _ _ m.pki_dir pki rel
        (λ r e. apart (("pki" ∷ []) ++ r) rel (sym (append_assoc path ("pki" ∷ []) r) ∙ e))
        pki_files w2 pki_files-Distinct listed k2 e3 in
    let k3 =
      Keeps-eq (FileIs (pki ++ rel) (some g)) _ w3
        (copy_kubeconfigs-FileIs_other env "backing up kubeconfig " m.kubeconfig_dir
          (path ++ ("kubeconfigs" ∷ [])) (pki ++ rel) kubeconfig_files
          (All-always (λ p. kubeconfigs-ne-pki path p rel) kubeconfig_files))
        (record { same = is_g }) done3 in
    (g, k3.same, same)

now_same :
    (env : Env) (w : World) {t : Time} {w' : World} → now env w ≡ (ok t, w') → w'.files ≡ w.files
unfolding now next_call ◌>>=◌ pure
now_same env w e = cc

-- The end of `create`.
pub described :
    (env : Env) (node : String) (path : FilePath) (w : World) {b : Backup} {w' : World}
    → (now env >>= λ created.
          pure (record { node = node; backup_path = path; created_at = created }))
        w
      ≡ (ok b, w')
    → (b.backup_path ≡ path) × (w'.files ≡ w.files)
unfolding now next_call ◌>>=◌ pure
described env node path w e = (cc, cc)

-- A backup has a directory of its own, with a copy of each certificate file.
abbrev Copied : Manager → Bytes → FilePath → Backup → World → Type 0
Copied m bytes rel b w =
    (tail : FilePath) × (b.backup_path ≡ m.backup_dir ++ tail)
    × Holds bytes ((b.backup_path ++ ("pki" ∷ [])) ++ rel) w

create_copies :
    (env : Env) (m : Manager) (node : String) (rel : FilePath) (w : World) {f : File} {b : Backup}
    {w1 : World}
    → ((p q : FilePath) → m.backup_dir ++ p ≢ m.pki_dir ++ q)
    → contains rel pki_files ≡ true
    → w.files (m.pki_dir ++ rel) ≡ some f
    → create env m node w ≡ (ok b, w1)
    → Copied m f.content rel b w1
unfolding create
create_copies env m node rel w {f} {b} {w1} apart listed there done =
    let (t, wa, ea, ra) = >>=-eq-ok _ _ w done in
    let tail = node ∷ env.format "2006-01-02T15-04-05Z" t ∷ [] in
    let path = m.backup_dir ++ tail in
    let (u, wb, eb, rb) = >>=-eq-ok _ _ wa ra in
    let (at_path, same_files) = described env node path wb rb in
    let there_a : wa.files (m.pki_dir ++ rel) ≡ some f = cc (now_same env w ea) in
    let (g, is_g, same) =
      copy_to_backup_copies env m path rel wa
        (λ p q e. apart (tail ++ p) q (sym (append_assoc m.backup_dir tail p) ∙ e)) listed there_a
        eb in
    (tail, at_path, (g, rw (at_path, same_files, is_g), same))

-- What `restore` copies.
pub restore_copies :
    (env : Env) (m : Manager) (path rel : FilePath) (w : World) {f : File} {w' : World}
    → ((p q : FilePath) → path ++ p ≢ m.pki_dir ++ q)
    → All (λ file. m.kubeconfig_dir ++ file ≢ m.pki_dir ++ rel) kubeconfig_files
    → contains rel pki_files ≡ true
    → w.files ((path ++ ("pki" ∷ [])) ++ rel) ≡ some f
    → restore env m path w ≡ (ok tt, w')
    → Holds f.content (m.pki_dir ++ rel) w'
unfolding restore
restore_copies env m path rel w {f} {w'} apart others listed there done =
    let pki = path ++ ("pki" ∷ []) in
    let (_, w1, e1, done1) = >>=-eq-ok _ _ w done in
    let (g, is_g, same) =
      copy_pki_copies env _ _ pki m.pki_dir rel
        (λ r e. apart (("pki" ∷ []) ++ rel) r (sym (append_assoc path ("pki" ∷ []) rel) ∙ sym e))
        pki_files w pki_files-Distinct listed there e1 in
    let kept =
      Keeps-eq (FileIs (m.pki_dir ++ rel) (some g)) _ w1
        (copy_kubeconfigs-FileIs_other env "restoring kubeconfig " (path ++ ("kubeconfigs" ∷ []))
          m.kubeconfig_dir (m.pki_dir ++ rel) kubeconfig_files others)
        (record { same = is_g }) done1 in
    (g, kept.same, same)

-- A certificate or key file that `create` backs up has the content that it had at that time again
-- after `restore` from this backup, whatever happened to it in between. The conditions: the backup
-- directory and the certificate directory do not overlap, no kubeconfig is restored to the file's
-- path, both calls return without an error, and the files of the backup are the same when it is
-- restored.
pub restore-create :
    (env : Env) (m : Manager) (node : String) (rel : FilePath) (w w2 : World) {f : File}
    {b : Backup} {w1 w3 : World}
    → ((p q : FilePath) → m.backup_dir ++ p ≢ m.pki_dir ++ q)
    → All (λ file. m.kubeconfig_dir ++ file ≢ m.pki_dir ++ rel) kubeconfig_files
    → contains rel pki_files ≡ true
    → w.files (m.pki_dir ++ rel) ≡ some f
    → create env m node w ≡ (ok b, w1)
    → ((p : FilePath) → w2.files (b.backup_path ++ p) ≡ w1.files (b.backup_path ++ p))
    → restore env m b.backup_path w2 ≡ (ok tt, w3)
    → (g : File) × (w3.files (m.pki_dir ++ rel) ≡ some g) × (g.content ≡ f.content)
restore-create env m node rel w w2 {f} {b} {w1} {w3} apart others listed there created untouched
      restored =
    let (tail, at_tail, (g, is_g, same)) =
      create_copies env m node rel w apart listed there created in
    let (h, is_h, same_h) =
      restore_copies env m b.backup_path rel w2
        (λ p q e.
          apart (tail ++ p) q
            (sym (append_assoc m.backup_dir tail p) ∙ ap (λ d. d ++ p) (sym at_tail) ∙ e))
        others listed
        (ap w2.files (append_assoc b.backup_path ("pki" ∷ []) rel)
          ∙ untouched (("pki" ∷ []) ++ rel)
          ∙ ap w1.files (sym (append_assoc b.backup_path ("pki" ∷ []) rel))
          ∙ is_g)
        restored in
    (h, is_h, same_h ∙ same)
