-- ===== src/Backup/Loops.antt =====
-- What the loops over the files copy.
use cert_rotator.Base.{
  String, List, [], ◌∷◌, ◌++◌, true, false, Option, some, ◌≡◌, ◌≢◌, ◌==◌, path_eq, contains, arith,
  sym, ◌∙◌, ◌<>◌,
}
use cert_rotator.Api.{FilePath}
use cert_rotator.Host.{Env, Bytes, File, World, ok, mkdir_all, dir, rel_text}
use cert_rotator.Host.Keeps.{Keeps, Keeps-bind}
use cert_rotator.Host.Frame.{FileIs, file_rules}
use cert_rotator.Host.Inversion.{>>=-eq-ok, wrap-eq-ok, Keeps-eq}
use cert_rotator.Backup.{copy_optional, copy_pki}
use cert_rotator.Backup.Frame.{copy_optional-FileIs}
use cert_rotator.Backup.Copy.{Holds, copy_optional_copies, mkdir_all_ready}

-- Paths below one directory differ if what follows does.
pub append-injective : (d p q : FilePath) → d ++ p ≡ d ++ q → p ≡ q
append-injective [] p q e = e
append-injective (c ∷ d) p q e = append-injective d p q (cc)

append-ne_right : (d p q : FilePath) → (q == p) ≡ false → d ++ p ≢ d ++ q
append-ne_right d p q h = λ e. ground (arith, append-injective d p q e)

module _ {x : Option File} (env : Env) (a b : String) (src dst rel : FilePath) where
  -- A loop over other files leaves this one alone.
  copy_pki-FileIs_other :
      (rels : List FilePath)
      → contains rel rels ≡ false
      → Keeps (FileIs (dst ++ rel) x) (copy_pki env a b src dst rels)
  unfolding copy_pki
  copy_pki-FileIs_other [] out = search file_rules
  copy_pki-FileIs_other (r ∷ rels) out = Keeps-bind _ _ (search file_rules) λ _.
      Keeps-bind _ _ (copy_optional-FileIs env _ _ _ (append-ne_right dst r rel (ground arith)))
        λ _. copy_pki-FileIs_other rels (ground arith)

-- No path is listed twice.
abbrev pub Distinct : List FilePath → Type 0
Distinct [] = Unit
Distinct (p ∷ ps) = (contains p ps ≡ false) × Distinct ps

-- One round of the loop that succeeds copies its file.
round_copies :
    (env : Env) (text : String) (src dst : FilePath) (w w1 w2 : World) {f : File}
    → src ≢ dst
    → w.files src ≡ some f
    → mkdir_all env (dir dst) w ≡ (ok tt, w1)
    → copy_optional env text src dst w1 ≡ (ok tt, w2)
    → Holds f.content dst w2
round_copies env text src dst w w1 w2 {f} ne there made copied =
    copy_optional_copies env text src dst w1 ne kept.same (mkdir_all_ready env (dir dst) w made)
      copied
  where
    kept : FileIs src (some f) w1
    kept =
        Keeps-eq (FileIs src (some f)) (mkdir_all env (dir dst)) w (search file_rules)
          (record { same = there }) made

module _ (env : Env) (a b : String) (src dst rel : FilePath) where
  -- The file stays as it was copied through the rounds for other files.
  held_copies :
      (rels : List FilePath) (w : World) {bytes : Bytes} {w' : World}
      → contains rel rels ≡ false
      → Holds bytes (dst ++ rel) w
      → copy_pki env a b src dst rels w ≡ (ok tt, w')
      → Holds bytes (dst ++ rel) w'
  held_copies rels w out (g, is_g, same) done =
      let kept =
        Keeps-eq (FileIs (dst ++ rel) (some g)) (copy_pki env a b src dst rels) w
          (copy_pki-FileIs_other env a b src dst rel rels out) (record { same = is_g }) done in
      (g, kept.same, same)

  module _ (apart : (r : FilePath) → dst ++ r ≢ src ++ rel) where
    -- The source's file stays through a round.
    source_kept :
        (r : FilePath) (w w1 w2 : World) {f : File}
        → w.files (src ++ rel) ≡ some f
        → mkdir_all env (dir (dst ++ r)) w ≡ (ok tt, w1)
        → copy_optional env (b <> rel_text r) (src ++ r) (dst ++ r) w1 ≡ (ok tt, w2)
        → w2.files (src ++ rel) ≡ some f
    source_kept r w w1 w2 {f} there made copied =
        let P = FileIs (src ++ rel) (some f) in
        let k1 : P w1 =
          Keeps-eq P (mkdir_all env (dir (dst ++ r))) w (search file_rules)
            (record { same = there }) made in
        (Keeps-eq P (copy_optional env (b <> rel_text r) (src ++ r) (dst ++ r)) w1
          (copy_optional-FileIs env _ _ _ (apart r)) k1 copied).same

    round_copies_at :
        (r : FilePath) (w w1 w2 : World) {f : File}
        → rel ≡ r
        → w.files (src ++ rel) ≡ some f
        → mkdir_all env (dir (dst ++ r)) w ≡ (ok tt, w1)
        → copy_optional env (b <> rel_text r) (src ++ r) (dst ++ r) w1 ≡ (ok tt, w2)
        → Holds f.content (dst ++ rel) w2
    round_copies_at r w w1 w2 e there made copied = rw e (
        round_copies env (b <> rel_text r) (src ++ r) (dst ++ r) w w1 w2
          (λ same. apart r (sym same ∙ rw e)) (rw e at there) made copied)

    -- A loop that succeeds has copied each of its files that the source directory has.
    pub copy_pki_copies :
        (rels : List FilePath) (w : World) {f : File} {w' : World}
        → Distinct rels
        → contains rel rels ≡ true
        → w.files (src ++ rel) ≡ some f
        → copy_pki env a b src dst rels w ≡ (ok tt, w')
        → Holds f.content (dst ++ rel) w'
    unfolding copy_pki
    copy_pki_copies [] w once listed there done = cc
    copy_pki_copies (r ∷ rels) w {f} {w'} once listed there done =
        let (u, w1, wrapped, done1) = >>=-eq-ok _ _ w done in
        let made = wrap-eq-ok _ _ w wrapped in
        let (v, w2, copied, done2) = >>=-eq-ok _ _ w1 done1 in
        elim (path_eq.dec rel r) [
          | yes here ↦
              held_copies rels w2 (rw (sym here) at once.0)
                (round_copies_at r w w1 w2 here there made copied) done2
          | no other ↦
              copy_pki_copies rels w2 once.1 (ground arith)
                (source_kept r w w1 w2 there made copied) done2
        ]
