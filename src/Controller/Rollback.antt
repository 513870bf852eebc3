-- ===== src/Controller/Rollback.antt =====
-- What the reconciler's rollback does.
use cert_rotator.Base.{String, ◌<>◌, [], ◌≡◌, ◌==◌, path_eq, if◌then◌else◌, arith}
use cert_rotator.Api.{CertRotationConfigSpec}
use cert_rotator.Host.{Env, World, Error, message, err, panic, gets, fail, ◌>>=◌}
use cert_rotator.Rollback.Nil.{nil_dereference, rollback_all-none}
use cert_rotator.State.{Json}
use cert_rotator.Controller.Status.{node_status}
use cert_rotator.Controller.Renewal.{run_rollback, roll_back, rollback_manager, timeout_of}

roll_back_lem :
    (env : Env) (json : Json) (node : String) (spec : CertRotationConfigSpec) (e : Error)
    (w : World)
    → roll_back env json node spec e w ≡ (panic nil_dereference, w)
unfolding roll_back ◌>>=◌
roll_back_lem env json node spec e w =
    rw (rollback_all-none env json (rollback_manager spec) [] node (timeout_of spec) w)

-- The reconciler's rollback has two outcomes, and changes nothing in either: an error if the status
-- has no backup path for the node, and a panic at the nil state if it has one.
pub run_rollback_lem :
    (env : Env) (json : Json) (node : String) (spec : CertRotationConfigSpec) (e : Error)
    (w : World)
    → run_rollback env json node spec e w ≡ (
        if (node_status node w.status).backup_path == []
        then (
          err (message ("no backup path in status for node " <> node <> " — cannot roll back")),
          w,
        )
        else (panic nil_dereference, w))
unfolding run_rollback gets fail ◌>>=◌
run_rollback_lem env json node spec e w = ground (arith, roll_back_lem env json node spec e w)

pub run_rollback_same :
    (env : Env) (json : Json) (node : String) (spec : CertRotationConfigSpec) (e : Error)
    (w : World)
    → (run_rollback env json node spec e w).1 ≡ w
run_rollback_same env json node spec e w = ground (arith, run_rollback_lem env json node spec e w)
