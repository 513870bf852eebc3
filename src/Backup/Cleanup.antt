-- ===== src/Backup/Cleanup.antt =====
-- The removal of old backups (Cleanup in pkg/backup/backup.go).
pub mod Retention
pub mod Restorable
use cert_rotator.Base.{
  ℕ, String, Bool, not, ◌&&◌, ◌||◌, List, [], ◌∷◌, ◌++◌, Option, none, some, ◌⊎◌, inl, inr,
  if◌then◌else◌,
}
use cert_rotator.Base.Int.{ℤ, pos, ltb_ℤ, int64, ◌-ℤ◌}
use cert_rotator.Api.{Time, FilePath}
use cert_rotator.Host.{
  Env, Error, not_exist, message, Fault, refused, torn, File, World, ok, Exec, pure, fail, attempt,
  lift, log_error, now, next_call, is_prefix, ◌>>=◌, ◌>>◌,
}
use cert_rotator.Backup.{Manager}

-- `os.DirEntry`, with what its `Info` answers: an error, or the modification time.
pub record Entry : Type 0 where
  pub name : String
  pub info : Error ⊎ Time

-- The listings of directories, calendar arithmetic in the local zone, and what a removal that
-- fails leaves behind.
pub record Calendar : Type 0 where
  pub read_dir : ℕ → FilePath → Error ⊎ List Entry
  pub add_days : Time → ℤ → Time
  pub survives : ℕ → FilePath → Bool

abbrev pub removed :
    FilePath → (FilePath → Bool) → (FilePath → Option File) → FilePath → Option File
removed p keep files q = if is_prefix p q && not (keep q) then none else files q

unfoldable pub remove_below : FilePath → (FilePath → Bool) → Exec (Unit {0})
remove_below p keep w = (
  ok tt,
  record w {
    files = removed p keep w.files;
    dirs = λ q. w.dirs q && (keep q || not (is_prefix p q));
  },
)

unfoldable pub remove_with : Option Fault → FilePath → (FilePath → Bool) → Exec (Unit {0})
remove_with none p keep = remove_below p (λ _. Bool.false)
remove_with (some (refused s)) p keep = remove_below p keep >> fail (message s)
remove_with (some (torn s part)) p keep = remove_below p keep >> fail (message s)

-- `os.RemoveAll`
unfoldable pub remove_all : Env → Calendar → FilePath → Exec (Unit {0})
remove_all env cal p = next_call >>= λ n. remove_with (env.fault n) p (cal.survives n)

abbrev pub is_old : Time → Entry → Bool
is_old cutoff e = elim e.info [ inl _ ↦ Bool.false | inr t ↦ ltb_ℤ t cutoff ]

-- The loop over the entries. The error of a removal is dropped.
unfoldable pub cleanup_each : Env → Calendar → FilePath → Time → List Entry → Exec (Unit {0})
cleanup_each env cal node_dir cutoff [] = pure tt
cleanup_each env cal node_dir cutoff (e ∷ entries) = do
  (if is_old cutoff e then log_error (remove_all env cal (node_dir ++ (e.name ∷ []))) else pure tt)
  cleanup_each env cal node_dir cutoff entries

-- `time.Now().AddDate(0, 0, -keepDays)`
abbrev pub cutoff_of : Calendar → Time → ℤ → Time
cutoff_of cal t keep_days = cal.add_days t (int64 (pos 0 -ℤ keep_days))

unfoldable pub cleanup_listed : Env → Calendar → FilePath → ℤ → Error ⊎ List Entry → Exec (Unit {0})
cleanup_listed env cal node_dir keep_days (inl (not_exist s)) = pure tt
cleanup_listed env cal node_dir keep_days (inl e) = fail e
cleanup_listed env cal node_dir keep_days (inr entries) = do
  t ← now env
  cleanup_each env cal node_dir (cutoff_of cal t keep_days) entries

unfoldable pub cleanup : Env → Calendar → Manager → String → ℤ → Exec (Unit {0})
cleanup env cal m node keep_days = do
  n ← next_call
  let node_dir = m.backup_dir ++ (node ∷ [])
  cleanup_listed env cal node_dir keep_days (cal.read_dir n node_dir)
