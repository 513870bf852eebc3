-- ===== src/Backup/Copy.antt =====
-- What one copy of a file achieves.
use cert_rotator.Base.{String, [], ◌∷◌, true, some, ◌≡◌, ◌≢◌, refl, path_eq, arith}
use cert_rotator.Api.{FilePath}
use cert_rotator.Host.{
  Env, Bytes, not_exist, message, wrapped, File, World, Result, ok, err, panic, pure, fail, attempt,
  next_call, ◌>>=◌, is_prefix, mkdir_all, make_dirs, dir, mode_of, stat, fallible, look_up,
  put_file, write_with, open_truncated, io_copy,
}
use cert_rotator.Backup.{copy_file, skip_missing, copy_optional}

-- A copy that succeeds gives the target the content that the source has.
copy_file_copies :
    (env : Env) (src dst : FilePath) (w : World) {f : File} {w' : World}
    → src ≢ dst
    → w.files src ≡ some f
    → copy_file env src dst w ≡ (ok tt, w')
    → w'.files dst ≡ some (record { content = f.content; mode = mode_of (w.files dst) f.mode })
unfolding copy_file stat fallible look_up open_truncated put_file io_copy write_with next_call pure
    fail ◌>>=◌
copy_file_copies env src dst w ne there done = ground arith

-- With the source and the target's directory there, a copy does not fail for a missing file.
copy_file_found :
    (env : Env) (src dst : FilePath) (w : World) {f : File} {s : String} {w' : World}
    → w.files src ≡ some f
    → w.dirs (dir dst) ≡ true
    → copy_file env src dst w ≢ (err (not_exist s), w')
unfolding copy_file stat fallible look_up open_truncated put_file io_copy write_with next_call pure
    fail ◌>>=◌
copy_file_found env src dst w there ready = λ e. ground arith

-- The target holds a file with this content.
abbrev pub Holds : Bytes → FilePath → World → Type 0
Holds bytes dst w = (g : File) × (w.files dst ≡ some g) × (g.content ≡ bytes)

copy_optional_by :
    (env : Env) (text : String) (src dst : FilePath) (w : World) {f : File} (r : Result (Unit {0}))
    (w1 : World) {w' : World}
    → copy_file env src dst w ≡ (r, w1)
    → src ≢ dst
    → w.files src ≡ some f
    → w.dirs (dir dst) ≡ true
    → copy_optional env text src dst w ≡ (ok tt, w')
    → Holds f.content dst w'
unfolding copy_optional attempt skip_missing pure fail ◌>>=◌
copy_optional_by env text src dst w {f} (ok tt) w1 {w'} c ne there ready done =
    let same : w1 ≡ w' = ground arith in
    (
      record { content = f.content; mode = mode_of (w.files dst) f.mode },
      rw same at (copy_file_copies env src dst w ne there c),
      refl,
    )
copy_optional_by env text src dst w (err (not_exist s)) w1 c ne there ready done =
    absurd (copy_file_found env src dst w there ready c)
copy_optional_by env text src dst w (err (message s)) w1 c ne there ready done = ground arith
copy_optional_by env text src dst w (err (wrapped s e)) w1 c ne there ready done = ground arith
copy_optional_by env text src dst w (panic s) w1 c ne there ready done = ground arith

-- A copy in a loop that goes on has put the source's content in place.
pub copy_optional_copies :
    (env : Env) (text : String) (src dst : FilePath) (w : World) {f : File} {w' : World}
    → src ≢ dst
    → w.files src ≡ some f
    → w.dirs (dir dst) ≡ true
    → copy_optional env text src dst w ≡ (ok tt, w')
    → Holds f.content dst w'
copy_optional_copies env text src dst w ne there ready done =
    let (r, w1) = copy_file env src dst w in
    copy_optional_by env text src dst w r w1 refl ne there ready done

-- A directory that was made is there.
pub is_prefix_refl : (p : FilePath) → is_prefix p p ≡ true
is_prefix_refl [] = refl
is_prefix_refl (c ∷ p) = ground (arith, is_prefix_refl p)

pub mkdir_all_ready :
    (env : Env) (p : FilePath) (w : World) {w' : World}
    → mkdir_all env p w ≡ (ok tt, w')
    → w'.dirs p ≡ true
unfolding mkdir_all fallible make_dirs next_call fail ◌>>=◌
mkdir_all_ready env p w done = ground (arith, is_prefix_refl p)
