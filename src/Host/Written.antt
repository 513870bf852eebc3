-- ===== src/Host/Written.antt =====
-- What the calls on files achieve when they end well.
use cert_rotator.Base.{
  ℕ, ◌+◌, String, none, some, Option, path_eq, ◌≡◌, refl, ap, sym, ◌∙◌, arith, ◌⊎◌, inl, inr,
}
use cert_rotator.Api.{FilePath, Time}
use cert_rotator.Host.Types.{Env, Bytes, Error, not_exist, File, World}
use cert_rotator.Host.Monad.{
  Result, ok, err, panic, Exec, pure, fail, wrap, attempt, lift, now, next_call, ◌>>=◌,
}
use cert_rotator.Host.Files.{
  mode_of, put_file, write_with, write_file, mkdir_all, fallible, look_up, stat, read_file,
}
use cert_rotator.Host.Frame.{FileIs, file_rules}
use cert_rotator.Host.Keeps.{Keeps}
use cert_rotator.Host.Inversion.{>>=-eq-ok, Keeps-eq}

pub write_file_writes :
    (env : Env) (p : FilePath) (bytes : Bytes) (mode : ℕ) (w : World) {w' : World}
    → write_file env p bytes mode w ≡ (ok tt, w')
    → w'.files p ≡ some (record { content = bytes; mode = mode_of (w.files p) mode })
unfolding write_file write_with put_file next_call fail ◌>>=◌
write_file_writes env p bytes mode w done = ground arith

-- Making a directory leaves the files as they are.
pub mkdir_same :
    (env : Env) (text : String) (p q : FilePath) (w : World) {u : Unit {0}} {w' : World}
    → wrap text (mkdir_all env p) w ≡ (ok u, w')
    → w'.files q ≡ w.files q
mkdir_same env text p q w made =
    (Keeps-eq (FileIs q (w.files q)) (wrap text (mkdir_all env p)) w (search file_rules)
      (record { same = refl }) made).same

pub read_file_found :
    (env : Env) (p : FilePath) (w : World) {f : File}
    → w.files p ≡ some f
    → env.fault w.calls ≡ none
    → read_file env p w ≡ (ok f.content, record w { calls = w.calls + 1 })
unfolding read_file stat fallible look_up next_call pure ◌>>=◌
read_file_found env p w there readable = ground arith

pub now_lem :
    (env : Env) (w : World) → now env w ≡ (ok (env.clock w.calls), record w { calls = w.calls + 1 })
unfolding now next_call pure ◌>>=◌
now_lem env w = refl

attempted_inv :
    {A : Type 0} (r : Result A) (w1 : World) {a : A} {w' : World}
    → attempt (λ _. (r, w1)) w1 ≡ (ok (inr a), w')
    → ◌≡◌ {A = Result A × World} (r, w1) (ok a, w')
unfolding attempt
attempted_inv (ok b) w1 e = cc
attempted_inv (err x) w1 e = cc
attempted_inv (panic s) w1 e = cc

pub attempt-inr :
    {A : Type 0} (m : Exec A) (w : World) {a : A} {w' : World}
    → attempt m w ≡ (ok (inr a), w')
    → m w ≡ (ok a, w')
unfolding attempt
attempt-inr m w e = attempted_inv (m w).0 (m w).1 e

pub lift-ok :
    {A : Type 0} (r : Error ⊎ A) (w : World) {a : A} {w' : World}
    → lift r w ≡ (ok a, w')
    → (r ≡ inr a) × (w ≡ w')
unfolding lift
lift-ok (inl e) w done = cc
lift-ok (inr b) w done = (cc, cc)

pub pure-ok :
    {A : Type 0} (a : A) (w : World) {b : A} {w' : World}
    → pure a w ≡ (ok b, w')
    → (a ≡ b) × (w ≡ w')
unfolding pure
pure-ok a w done = (cc, cc)

pub now-ok :
    (env : Env) (w : World) {t : Time} {w' : World}
    → now env w ≡ (ok t, w')
    → (env.clock w.calls ≡ t) × (record w { calls = w.calls + 1 } ≡ w')
unfolding now next_call pure ◌>>=◌
now-ok env w done = (cc, cc)

pub next_call-ok :
    (w : World) {n : ℕ} {w' : World}
    → next_call w ≡ (ok n, w')
    → (w.calls ≡ n) × (record w { calls = w.calls + 1 } ≡ w')
unfolding next_call
next_call-ok w done = (cc, cc)

pub stat-ok :
    (env : Env) (p : FilePath) (w : World) {f : File} {w' : World}
    → stat env p w ≡ (ok f, w')
    → (w.files p ≡ some f) × (w'.files ≡ w.files)
unfolding stat fallible look_up next_call pure fail ◌>>=◌
stat-ok env p w done = ground arith

pub read_file-ok :
    (env : Env) (p : FilePath) (w : World) {bytes : Bytes} {w' : World}
    → read_file env p w ≡ (ok bytes, w')
    → (f : File) × (w.files p ≡ some f) × (f.content ≡ bytes) × (w'.files ≡ w.files)
unfolding read_file
read_file-ok env p w done =
    let (f, w1, e1, d1) = >>=-eq-ok _ _ w done in
    let (there, kept) = stat-ok env p w e1 in
    let (same, at_end) = pure-ok _ w1 d1 in (f, there, same, ap World.files (sym at_end) ∙ kept)

-- Only a file that is not there is reported as such.
pub read_file-not_exist :
    (env : Env) (p : FilePath) (w : World) {s : String} {w' : World}
    → attempt (read_file env p) w ≡ (ok (inl (not_exist s)), w')
    → (w.files p ≡ none) × (w'.files ≡ w.files)
unfolding attempt read_file stat fallible look_up next_call pure fail ◌>>=◌
read_file-not_exist env p w done = ground arith

-- The file at a path stays as it is through a call that keeps it.
pub stays :
    {A : Type 0} (path : FilePath) {x : Option File} (m : Exec A) (w : World) {r : Result A}
    {w' : World}
    → Keeps (FileIs path x) m
    → w.files path ≡ x
    → m w ≡ (r, w')
    → w'.files path ≡ x
stays path m w k there done = (Keeps-eq (FileIs path _) m w k (record { same = there }) done).same
