-- ===== src/Rollback/Nil.antt =====
-- A rollback through a nil pointer to the state.
use cert_rotator.Base.{String, List, none, ◌≡◌, refl}
use cert_rotator.Base.Int.{ℤ}
use cert_rotator.Host.{Env, World, panic, crash, ◌>>=◌}
use cert_rotator.State.{Json}
use cert_rotator.Rollback.{
  Manager, nodes_to_rollback, unique_from, rollback_node, rollback_each, rollback_all,
}

abbrev pub nil_dereference : String
nil_dereference = "invalid memory address or nil pointer dereference"

-- Whatever the nodes, a rollback that is given no state panics before it has done anything.
pub rollback_all-none :
    (env : Env) (json : Json) (m : Manager) (renewed : List String) (failed : String) (timeout : ℤ)
    (w : World)
    → rollback_all env json m renewed failed none timeout w ≡ (panic nil_dereference, w)
unfolding rollback_all nodes_to_rollback unique_from rollback_each rollback_node crash ◌>>=◌
rollback_all-none env json m renewed failed timeout w = refl
