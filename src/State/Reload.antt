-- ===== src/State/Reload.antt =====
-- A state that was saved is loaded again.
use cert_rotator.Base.{◌+◌, none, some, ◌⊎◌, inr, path_eq, ◌≡◌, ap, sym, ◌∙◌, arith}
use cert_rotator.Api.{FilePath}
use cert_rotator.Host.{Env, Bytes, Error, File, World, ok, attempt, lift, mode_of, ◌>>=◌}
use cert_rotator.Host.Written.{
  write_file_writes, read_file_found, attempt-inr, lift-ok, pure-ok, now-ok,
}
use cert_rotator.Host.Inversion.{>>=-eq-ok}
use cert_rotator.State.{State, Json, load_read, load, write_state, save}

write_state_stores :
    (env : Env) (json : Json) (path : FilePath) (s : State) (w : World) {w' : World}
    → write_state env json path s w ≡ (ok tt, w')
    → (f : File) × (w'.files path ≡ some f) × (json.marshal s ≡ inr f.content)
unfolding write_state
write_state_stores env json path s w {w'} done =
    let (bytes, w1, e1, d1) = >>=-eq-ok _ _ w done in
    let (_, w2, e2, d2) = >>=-eq-ok _ _ w1 d1 in
    (
      record { content = bytes; mode = mode_of (w2.files path) 0o600 },
      write_file_writes env path bytes 0o600 w2 d2,
      (lift-ok (json.marshal s) w e1).0,
    )

pub save-ok :
    (env : Env) (json : Json) (path : FilePath) (s s' : State) (r : Error ⊎ Unit {0}) (w w' : World)
    → save env json path s w ≡ (ok (s', r), w')
    → (s' ≡ record s { updated_at = some (env.clock w.calls) })
      × (attempt (write_state env json path s') (record w { calls = w.calls + 1 }) ≡ (ok r, w'))
unfolding save
save-ok env json path s s' r w w' saved =
    let (t, w1, e1, d1) = >>=-eq-ok _ _ w saved in
    let (r1, w2, e2, d2) = >>=-eq-ok _ _ w1 d1 in
    let (at_time, at_world) = now-ok env w e1 in
    let (same_pair, same_world) = pure-ok _ w2 d2 in
    let stamped : record s { updated_at = some t } ≡ s' = ap (λ p. p.0) same_pair in
    let tried : attempt (write_state env json path (record s { updated_at = some t })) w1
        ≡ (ok r, w') =
      e2 ∙ (λ i. (ok (same_pair i).1, same_world i)) in
    (
      sym stamped ∙ ap (λ u. record s { updated_at = some u }) (sym at_time),
      (λ i. attempt (write_state env json path (sym stamped i)) (at_world i)) ∙ tried,
    )

loads :
    (env : Env) (json : Json) (path : FilePath) (s : State) (w : World) {f : File}
    → w.files path ≡ some f
    → json.unmarshal f.content ≡ inr s
    → env.fault w.calls ≡ none
    → load env json path w ≡ (ok s, record w { calls = w.calls + 1 })
unfolding load load_read attempt lift ◌>>=◌
loads env json path s w {f} there codec readable =
    ground (arith, read_file_found env path w there readable, codec)

-- A save that reports no error has stamped the state with the time, and a load that follows returns
-- the stamped state, if its call does not fail and the JSON codec reads back what it writes for
-- this state.
pub load-save :
    (env : Env) (json : Json) (path : FilePath) (s s' : State) (w w' : World)
    → ((bytes : Bytes) → json.marshal s' ≡ inr bytes → json.unmarshal bytes ≡ inr s')
    → save env json path s w ≡ (ok (s', inr tt), w')
    → env.fault w'.calls ≡ none
    → (s' ≡ record s { updated_at = some (env.clock w.calls) })
      × (load env json path w' ≡ (ok s', record w' { calls = w'.calls + 1 }))
load-save env json path s s' w w' codec saved readable =
    let (stamped, stored) = save-ok env json path s s' (inr tt) w w' saved in
    let (f, there, encoded) = write_state_stores env json path s' _ (attempt-inr _ _ stored) in
    (stamped, loads env json path s' w' there (codec f.content encoded) readable)
