-- ===== src/Host/Files.antt =====
-- The calls of package `os` and `io` that the program makes. A file's directory is the path
-- without its last component; the umask clears no bit of the modes that the program uses.
use cert_rotator.Base.{
  ℕ, ◌<>◌, Bool, true, false, ◌||◌, ◌&&◌, Option, none, some, [], ◌∷◌, ◌==◌, path_eq, string_eq,
  if◌then◌else◌,
}
use cert_rotator.Api.{FilePath}
use cert_rotator.Host.Types.{
  Bytes, Error, not_exist, message, Fault, refused, torn, Env, File, wrote, path_text,
}
use cert_rotator.Host.Monad.{ok, Exec, pure, fail, next_call, ◌>>=◌, ◌>>◌}

-- `filepath.Dir`
abbrev pub dir : FilePath → FilePath
dir [] = []
dir (c ∷ []) = []
dir (c ∷ d ∷ p) = c ∷ dir (d ∷ p)

abbrev pub is_prefix : FilePath → FilePath → Bool
is_prefix [] q = true
is_prefix (c ∷ p) [] = false
is_prefix (c ∷ p) (d ∷ q) = c == d && is_prefix p q

abbrev pub update : (FilePath → Option File) → FilePath → File → FilePath → Option File
update files p f q = if q == p then some f else files q

-- The mode of a file that is there already stays; a new one gets the mode of the call.
abbrev pub mode_of : Option File → ℕ → ℕ
mode_of none mode = mode
mode_of (some f) mode = f.mode

abbrev pub no_such_file : FilePath → Error
no_such_file p = not_exist ("open " <> path_text p <> ": no such file or directory")

-- `m`, unless the call fails.
abbrev pub guarded : {A : Type 0} → Option Fault → Exec A → Exec A
guarded none m = m
guarded (some (refused s)) m = fail (message s)
guarded (some (torn s bytes)) m = fail (message s)

unfoldable pub fallible : {A : Type 0} → Env → Exec A → Exec A
fallible env m = next_call >>= λ n. guarded (env.fault n) m

abbrev pub existing : FilePath → Option File → Exec File
existing p none = fail (no_such_file p)
existing p (some f) = pure f

unfoldable pub look_up : FilePath → Exec File
look_up p w = existing p (w.files p) w

-- `os.Stat`, `os.Open` with the `Stat` of the handle
unfoldable pub stat : Env → FilePath → Exec File
stat env p = fallible env (look_up p)

-- `os.ReadFile`
unfoldable pub read_file : Env → FilePath → Exec Bytes
read_file env p = stat env p >>= λ f. pure f.content

-- `os.MkdirAll`
unfoldable pub make_dirs : FilePath → Exec (Unit {0})
make_dirs p w = (ok tt, record w { dirs = λ q. is_prefix q p || w.dirs q })

unfoldable pub mkdir_all : Env → FilePath → Exec (Unit {0})
mkdir_all env p = fallible env (make_dirs p)

-- Puts the content in place, if the file's directory is there.
unfoldable pub put_file : FilePath → Bytes → ℕ → Exec (Unit {0})
put_file p bytes mode w =
    if w.dirs (dir p)
    then (
      ok tt,
      record w {
        files = update w.files p (record { content = bytes; mode = mode_of (w.files p) mode });
        trace = wrote p ∷ w.trace;
      },
    )
    else fail (no_such_file p) w

-- A write that the fault of its call may refuse or cut short.
unfoldable pub write_with : Option Fault → FilePath → Bytes → ℕ → Exec (Unit {0})
write_with none p bytes mode = put_file p bytes mode
write_with (some (refused s)) p bytes mode = fail (message s)
write_with (some (torn s part)) p bytes mode = put_file p part mode >> fail (message s)

-- `os.WriteFile`
unfoldable pub write_file : Env → FilePath → Bytes → ℕ → Exec (Unit {0})
write_file env p bytes mode = next_call >>= λ n. write_with (env.fault n) p bytes mode

-- `os.OpenFile` with `O_WRONLY|O_CREATE|O_TRUNC`
unfoldable pub open_truncated : Env → FilePath → ℕ → Exec (Unit {0})
open_truncated env p mode = fallible env (put_file p [] mode)

-- `io.Copy` between two open files
abbrev pub content_of : Option File → Bytes
content_of none = []
content_of (some f) = f.content

unfoldable pub io_copy : Env → FilePath → FilePath → Exec (Unit {0})
io_copy env dst src =
    next_call >>= λ n. λ w. write_with (env.fault n) dst (content_of (w.files src)) 0 w
