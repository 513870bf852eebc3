-- ===== src/Backup/Cleanup/Retention.antt =====
-- Which backups a cleanup keeps and which it removes.
use cert_rotator.Base.{
  ℕ, ◌+◌, String, string_eq, Bool, false, not, ◌&&◌, ◌||◌, any, List, [], ◌∷◌, ◌++◌, Option, none,
  some, ◌⊎◌, inl, inr, ◌≡◌, refl, arith, Bool-cases, if◌then◌else◌,
}
use cert_rotator.Base.Int.{ℤ}
use cert_rotator.Api.{Time, FilePath}
use cert_rotator.Host.{
  Env, Error, not_exist, message, wrapped, Fault, refused, torn, File, World, ok, pure, fail,
  attempt, log_error, now, next_call, is_prefix, ◌>>=◌,
}
use cert_rotator.Host.Keeps.{Keeps, Keeps-bind, Keeps-if, Keeps-log_error, Keeps-pure, keeps_rules}
use cert_rotator.Host.Frame.{FileIs, file_rules, next_call-FileIs}
use cert_rotator.Backup.{Manager}
use cert_rotator.Backup.Cleanup.{
  Entry, Calendar, removed, is_old, cutoff_of, remove_below, remove_with, remove_all, cleanup_each,
  cleanup_listed, cleanup,
}

-- The file is below an entry that is old.
abbrev pub doomed : Time → FilePath → FilePath → Entry → Bool
doomed cutoff node_dir q e = is_old cutoff e && is_prefix (node_dir ++ (e.name ∷ [])) q

module _ {q : FilePath} {x : Option File} (env : Env) (cal : Calendar) where
  remove_below-FileIs :
      (p : FilePath) (keep : FilePath → Bool)
      → is_prefix p q ≡ false
      → Keeps (FileIs q x) (remove_below p keep)
  unfolding remove_below
  remove_below-FileIs p keep out = record {
    at = λ w h. record { same = ground (arith, out, h.same) };
  }

  remove_with-FileIs :
      (f : Option Fault) (p : FilePath) (keep : FilePath → Bool)
      → is_prefix p q ≡ false
      → Keeps (FileIs q x) (remove_with f p keep)
  unfolding remove_with
  remove_with-FileIs none p keep out = remove_below-FileIs p _ out
  remove_with-FileIs (some (refused s)) p keep out =
      search (keeps_rules, remove_below-FileIs p keep out)
  remove_with-FileIs (some (torn s part)) p keep out =
      search (keeps_rules, remove_below-FileIs p keep out)

  remove_all-FileIs :
      (p : FilePath) → is_prefix p q ≡ false → Keeps (FileIs q x) (remove_all env cal p)
  unfolding remove_all
  remove_all-FileIs p out = search (keeps_rules, next_call-FileIs, remove_with-FileIs)

  cleanup_each-FileIs :
      (node_dir : FilePath) (cutoff : Time) (entries : List Entry)
      → any (doomed cutoff node_dir q) entries ≡ false
      → Keeps (FileIs q x) (cleanup_each env cal node_dir cutoff entries)
  unfolding cleanup_each
  cleanup_each-FileIs node_dir cutoff [] out = search file_rules
  cleanup_each-FileIs node_dir cutoff (e ∷ entries) out =
      Keeps-bind _ _
        (Keeps-if (is_old cutoff e) _ _
          (λ old. Keeps-log_error _ (remove_all-FileIs _ (ground (arith, out, old))))
          (λ _. Keeps-pure tt))
        λ _. cleanup_each-FileIs node_dir cutoff entries (ground (arith, out))

cleanup_listed-same :
    (env : Env) (cal : Calendar) (node_dir q : FilePath) (keep_days : ℤ) (r : Error ⊎ List Entry)
    (w : World)
    → ((entries : List Entry)
        → r ≡ inr entries
        → any (doomed (cutoff_of cal (env.clock w.calls) keep_days) node_dir q) entries ≡ false)
    → (cleanup_listed env cal node_dir keep_days r w).1.files q ≡ w.files q
unfolding cleanup_listed pure fail now next_call ◌>>=◌
cleanup_listed-same env cal node_dir q keep_days (inl (not_exist s)) w out = refl
cleanup_listed-same env cal node_dir q keep_days (inl (message s)) w out = refl
cleanup_listed-same env cal node_dir q keep_days (inl (wrapped s e)) w out = refl
cleanup_listed-same env cal node_dir q keep_days (inr entries) w out =
    ((cleanup_each-FileIs env cal node_dir _ entries (out entries refl)).at
      (record w { calls = w.calls + 1 }) (record { same = refl })).same

-- The time before which a backup is too old, for a cleanup that begins in a world.
abbrev pub cutoff_at : Env → Calendar → ℤ → World → Time
cutoff_at env cal keep_days w = cutoff_of cal (env.clock (w.calls + 1)) keep_days

-- A cleanup, however it ends, leaves each file as it is that is below no old entry of the listing.
pub cleanup_keeps :
    (env : Env) (cal : Calendar) (m : Manager) (node : String) (keep_days : ℤ) (q : FilePath)
    (w : World)
    → ((entries : List Entry)
        → cal.read_dir w.calls (m.backup_dir ++ (node ∷ [])) ≡ inr entries
        → any (doomed (cutoff_at env cal keep_days w) (m.backup_dir ++ (node ∷ [])) q) entries
          ≡ false)
    → (cleanup env cal m node keep_days w).1.files q ≡ w.files q
unfolding cleanup next_call ◌>>=◌
cleanup_keeps env cal m node keep_days q w out =
    cleanup_listed-same env cal (m.backup_dir ++ (node ∷ [])) q keep_days
      (cal.read_dir w.calls (m.backup_dir ++ (node ∷ []))) (record w { calls = w.calls + 1 }) out

-- No call of the operating system fails.
abbrev pub Faultless : Env → Type 0
Faultless env = (n : ℕ) → env.fault n ≡ none

-- An entry's removal, if it is old.
entry_done :
    (env : Env) (cal : Calendar) (node_dir q : FilePath) (cutoff : Time) (e : Entry) (w : World)
    → Faultless env
    → (w1 : World) × ((if is_old cutoff e
            then log_error (remove_all env cal (node_dir ++ (e.name ∷ [])))
            else pure tt)
          w
        ≡ (ok tt, w1))
      × (w1.files q ≡ (if doomed cutoff node_dir q e then none else w.files q))
unfolding log_error remove_all remove_with remove_below attempt pure next_call ◌>>=◌
entry_done env cal node_dir q cutoff e w faultless = elim (Bool-cases (is_old cutoff e)) [
  | inl old ↦ (
    record w {
      calls = w.calls + 1;
      files = removed (node_dir ++ (e.name ∷ [])) (λ _. false) w.files;
      dirs = λ p. w.dirs p && (false || not (is_prefix (node_dir ++ (e.name ∷ [])) p));
    },
    ground (arith, old, faultless w.calls),
    ground (arith, old),
  )
  | inr recent ↦ (w, ground (arith, recent), ground (arith, recent))
]

cleanup_each_lem :
    (env : Env) (cal : Calendar) (node_dir q : FilePath) (cutoff : Time) (entries : List Entry)
    (w : World)
    → Faultless env
    → ((cleanup_each env cal node_dir cutoff entries w).0 ≡ ok tt)
      × ((cleanup_each env cal node_dir cutoff entries w).1.files q
          ≡ (if any (doomed cutoff node_dir q) entries then none else w.files q))
unfolding cleanup_each pure ◌>>=◌
cleanup_each_lem env cal node_dir q cutoff [] w faultless = (refl, refl)
cleanup_each_lem env cal node_dir q cutoff (e ∷ entries) w faultless =
    let (w1, is_done, file_1) = entry_done env cal node_dir q cutoff e w faultless in
    let (rest_ok, rest_file) = cleanup_each_lem env cal node_dir q cutoff entries w1 faultless in
    (rw is_done rest_ok, rw is_done (ground (arith, rest_file, file_1)))

cleanup_listed_lem :
    (env : Env) (cal : Calendar) (node_dir q : FilePath) (keep_days : ℤ) (entries : List Entry)
    (w : World)
    → Faultless env
    → ((cleanup_listed env cal node_dir keep_days (inr entries) w).0 ≡ ok tt)
      × ((cleanup_listed env cal node_dir keep_days (inr entries) w).1.files q ≡ (
          if any (doomed (cutoff_of cal (env.clock w.calls) keep_days) node_dir q) entries
          then none
          else w.files q))
unfolding cleanup_listed pure now next_call ◌>>=◌
cleanup_listed_lem env cal node_dir q keep_days entries w faultless =
    cleanup_each_lem env cal node_dir q (cutoff_of cal (env.clock w.calls) keep_days) entries
      (record w { calls = w.calls + 1 }) faultless

-- Where no call of the operating system fails, a cleanup of the node's backups ends without an
-- error, and exactly the files below an old entry of the listing are gone; the others are as before.
pub cleanup_lem :
    (env : Env) (cal : Calendar) (m : Manager) (node : String) (keep_days : ℤ) (q : FilePath)
    (entries : List Entry) (w : World)
    → Faultless env
    → cal.read_dir w.calls (m.backup_dir ++ (node ∷ [])) ≡ inr entries
    → ((cleanup env cal m node keep_days w).0 ≡ ok tt)
      × ((cleanup env cal m node keep_days w).1.files q ≡ (
          if any (doomed (cutoff_at env cal keep_days w) (m.backup_dir ++ (node ∷ [])) q) entries
          then none
          else w.files q))
unfolding cleanup next_call ◌>>=◌
cleanup_lem env cal m node keep_days q entries w faultless listing = rw listing (
    cleanup_listed_lem env cal (m.backup_dir ++ (node ∷ [])) q keep_days entries
      (record w { calls = w.calls + 1 }) faultless)
