-- ===== src/Tests/Backups.antt =====
-- Examples of backups.
use mathlib.Core.Path.{subst}
use cert_rotator.Base.{
  ◌⊎◌, String, false, [], ◌∷◌, ◌++◌, none, some, inr, ◌≡◌, ◌≢◌, refl, ap, ◌==◌, path_eq, string_eq,
  string_dec, if◌then◌else◌, List, inl,
}
use cert_rotator.Base.Int.{pos}
use cert_rotator.Api.{FilePath}
use cert_rotator.Host.{
  Bytes, Certificate, PrivateKey, Value, str, dict, end, field, File, Fields, World, Result, ok,
  Error,
}
use cert_rotator.Backup
use cert_rotator.Backup.{create, restore, kubeconfig_files}
use cert_rotator.Backup.RoundTrip.{restore-create}
use cert_rotator.Tests.Outside.{env, with_files}
use cert_rotator.Backup.Cleanup
use cert_rotator.Backup.Cleanup.{Entry, Calendar, cleanup}
use cert_rotator.Backup.Cleanup.Retention.{cleanup_lem}
use cert_rotator.Backup.Cleanup.Restorable.{restore-cleanup, is_outdated}

-- Backup and restoration of pki/ca.crt, which is overwritten in between.
abbrev manager : Backup.Manager
manager = record { backup_dir = "backups" ∷ []; pki_dir = "pki" ∷ []; kubeconfig_dir = "conf" ∷ [] }

abbrev rel : FilePath
rel = "ca.crt" ∷ []

abbrev before : World
before = with_files (("pki" ∷ rel) ∷ [])

abbrev backup : Backup.Backup
backup = record { node = "n1"; backup_path = "backups" ∷ "n1" ∷ "now" ∷ []; created_at = pos 50 }

abbrev after_backup : World
after_backup = (create env manager "n1" before).1

created : create env manager "n1" before ≡ (ok backup, after_backup)
unfolding create cert_rotator.Host.◌>>=◌ cert_rotator.Host.now cert_rotator.Host.next_call
    cert_rotator.Host.pure Backup.copy_to_backup cert_rotator.Host.wrap cert_rotator.Host.mkdir_all
    cert_rotator.Host.fallible cert_rotator.Host.make_dirs Backup.copy_pki Backup.copy_optional
    cert_rotator.Host.attempt Backup.copy_file cert_rotator.Host.stat cert_rotator.Host.look_up
    path_eq Backup.copy_kubeconfigs Backup.skip_missing string_dec string_eq
    cert_rotator.Host.io_copy cert_rotator.Host.open_truncated cert_rotator.Host.put_file
    cert_rotator.Host.write_with cert_rotator.Host.fail
created = refl

-- The content of pki/ca.crt is lost.
abbrev damaged : World
damaged = record after_backup {
  files = λ q. if q == "pki" ∷ rel then none else after_backup.files q;
}

abbrev after_restore : World
after_restore = (restore env manager backup.backup_path damaged).1

restored : restore env manager backup.backup_path damaged ≡ (ok tt, after_restore)
unfolding restore cert_rotator.Host.◌>>=◌ Backup.copy_pki cert_rotator.Host.wrap
    cert_rotator.Host.mkdir_all cert_rotator.Host.fallible cert_rotator.Host.next_call
    cert_rotator.Host.make_dirs Backup.copy_optional cert_rotator.Host.attempt Backup.copy_file
    cert_rotator.Host.stat cert_rotator.Host.look_up path_eq create cert_rotator.Host.now
    cert_rotator.Host.pure Backup.copy_kubeconfigs Backup.copy_to_backup Backup.skip_missing
    string_dec string_eq cert_rotator.Host.io_copy cert_rotator.Host.open_truncated
    cert_rotator.Host.put_file cert_rotator.Host.write_with cert_rotator.Host.fail
restored = refl

abbrev first : FilePath → String
first [] = ""
first (c ∷ p) = c

dirs_apart : (p q : FilePath) → ("backups" ∷ []) ++ p ≢ ("pki" ∷ []) ++ q
dirs_apart p q = λ e. names_apart (ap first e)
  where
    names_apart : ◌≢◌ {A = String} "backups" "pki"
    names_apart = cc

conf_apart : (p q : FilePath) → ("conf" ∷ []) ++ p ≢ ("pki" ∷ []) ++ q
conf_apart p q = λ e. names_apart (ap first e)
  where
    names_apart : ◌≢◌ {A = String} "conf" "pki"
    names_apart = cc

restore-create_example :
    (g : File) × (after_restore.files ("pki" ∷ rel) ≡ some g) × (g.content ≡ 1 ∷ 2 ∷ [])
unfolding path_eq
restore-create_example =
    restore-create env manager "n1" rel before damaged dirs_apart
      (conf_apart _ rel, (conf_apart _ rel, (conf_apart _ rel, (conf_apart _ rel, tt)))) refl refl
      created (λ p. refl) restored

-- The listing of the node's backups: this one, and one from the beginning of time.
abbrev entries : List Entry
entries =
    (record { name = "now"; info = inr (pos 1000) }
      ∷ record { name = "old"; info = inr (pos 0) }
      ∷ [])

abbrev calendar : Calendar
calendar = record { read_dir = λ _ _. inr entries; add_days = λ t _. t; survives = λ _ _. false }

-- The calls of another process.
abbrev later : World
later = record damaged { calls = 0 }

abbrev cleaned : World
cleaned = (cleanup env calendar manager "n1" (pos 30) later).1

cleanup_lem_example :
    ((cleanup env calendar manager "n1" (pos 30) later).0 ≡ ok tt)
    × (cleaned.files ("backups" ∷ "n1" ∷ "old" ∷ "pki" ∷ []) ≡ none)
unfolding string_eq string_dec
cleanup_lem_example =
    cleanup_lem env calendar manager "n1" (pos 30) ("backups" ∷ "n1" ∷ "old" ∷ "pki" ∷ []) entries
      later (λ _. refl) refl

abbrev after_cleanup : World
after_cleanup = (restore env manager backup.backup_path cleaned).1

restored_after_cleanup : restore env manager backup.backup_path cleaned ≡ (ok tt, after_cleanup)
unfolding restore cert_rotator.Host.◌>>=◌ Backup.copy_pki cert_rotator.Host.wrap
    cert_rotator.Host.mkdir_all cert_rotator.Host.fallible cert_rotator.Host.next_call
    cert_rotator.Host.make_dirs Backup.copy_optional cert_rotator.Host.attempt Backup.copy_file
    cert_rotator.Host.stat cert_rotator.Host.look_up path_eq create cert_rotator.Host.now
    cert_rotator.Host.pure Backup.copy_kubeconfigs Backup.copy_to_backup Backup.skip_missing
    string_dec string_eq cert_rotator.Host.io_copy cert_rotator.Host.open_truncated
    cert_rotator.Host.put_file cert_rotator.Host.write_with cert_rotator.Host.fail cleanup
    Cleanup.cleanup_listed Cleanup.cleanup_each Cleanup.remove_all Cleanup.remove_with
    Cleanup.remove_below cert_rotator.Host.log_error
restored_after_cleanup = refl

abbrev listed : Error ⊎ List Entry → List Entry
listed (inl e) = entries
listed (inr l) = l

recent : is_outdated (pos 1) ("backups" ∷ "n1" ∷ []) ("backups" ∷ "n1" ∷ "now" ∷ []) entries ≡ false
unfolding path_eq string_eq string_dec
recent = refl

restore-cleanup_example :
    (g : File) × (after_cleanup.files ("pki" ∷ rel) ≡ some g) × (g.content ≡ 1 ∷ 2 ∷ [])
unfolding path_eq
restore-cleanup_example =
    restore-cleanup env calendar manager "n1" (pos 30) rel before later dirs_apart
      (conf_apart _ rel, (conf_apart _ rel, (conf_apart _ rel, (conf_apart _ rel, tt)))) refl refl
      created (λ p. refl)
      (λ l listing.
        subst
          (λ r.
            is_outdated (pos 1) ("backups" ∷ "n1" ∷ []) ("backups" ∷ "n1" ∷ "now" ∷ []) (listed r)
            ≡ false)
          listing recent)
      restored_after_cleanup
