-- ===== src/Lib.antt =====
-- cert-rotator renews the certificates of a Kubernetes control plane. A daemon on each control plane
-- node reconciles one CertRotationConfig resource: it reads the node's certificates, and if one is
-- about to expire it backs all of them up, renews those that are due, restarts the static pods,
-- checks their health, and rolls back if any of this fails.
--
-- The parts, with the files that model them:
--   Api          the resource's spec and status (api/v1alpha1/certrotationconfig_types.go)
--   Controller   one pass of the reconciler (internal/controller/certrotationconfig_controller.go).
--                Reconcile is `reconcile`, cut where it branches on a result: `on_fetched`,
--                `on_found`, `check_certs`, `on_detected`, `renew`, `on_renewal`, `on_rollback`,
--                `go_idle`. Its children: Status (the patch helpers), Conditions
--                (updateClusterConditions), Renewal (runRenewal, runRollback), Requeue, Notify.
--   Detector     Detect and what it parses (pkg/detector/detector.go)
--   Backup       Create, Restore, copyFile (pkg/backup/backup.go); its child Cleanup is the removal
--                of old backups, which no other package calls
--   Generator    keys, templates, loading and encoding (pkg/generator/generator.go)
--   Signer       SignWithSelfKey, CAForCert (pkg/signer/signer.go)
--   Writer       WriteCertKeyPair, WriteAllCerts, Verify (pkg/writer/writer.go)
--   PodRestart   RestartAll and the annotation of a manifest (pkg/podrestart/podrestart.go); its
--                child Wait is WaitForReady, which no other package calls
--   HealthCheck  the probes and their retries (pkg/healthcheck/healthcheck.go)
--   Rollback     RollbackAll (pkg/rollback/rollback.go)
--   Kubeconfig   Renew and RenewAll of kubeconfigs (pkg/kubeconfig/kubeconfig.go); no other package
--                calls it
--   State        the state file (state/state.go)
--   Notifier     mail and Slack (pkg/notifier/notifier.go)
--   Logger       the lines of the log (pkg/logger/logger.go); Detector.Log has those of a detection
--   Config       the configuration from variables (config/config.go); no other package loads it
--   Start        main and validateEnvironment (cmd/main.go), NodeNameFromEnv and SetupWithManager
-- The modules below a part hold its theorems: Frame says which files it leaves alone, the others are
-- named for what they prove. Base has what all share, and Tests has an example of each theorem.
--
-- Host is what the program runs on. A function of the program that acts is a function from a World
-- (the files, the directories, `cfg.Status` behind its pointer, what was sent) to a result and a
-- World. A result is a value, an error or a panic; a loop over a list stops at the first error, as
-- the code returns there. What the program does not decide is an answer of the Env: whether a call of
-- the operating system fails and after how much of a write, the clock, the order in which a map is
-- visited, the network, the API server, cryptography, the codecs of PEM, X.509, YAML and JSON, and
-- floating point; for a cleanup directory listings and calendar arithmetic (its Calendar), and for
-- a wait what os.Stat finds (Sizes). An answer that may change takes the number of the call. The
-- theorems hold for every Env; those that need a law of a codec, or that a loop over a map visits a
-- key, have it as a hypothesis.
--
-- A Go `int` or `time.Duration` is an integer, with the wrap-around of 64 bits where the program
-- multiplies or adds durations. A time is its number of nanoseconds, a path the list of its components.
-- The loops are structural recursion. `swap_loop`, the loop of `reverse`, has the length of its slice
-- as fuel, of which it needs half; `retry` counts the rounds that are left; `poll` has rounds as fuel,
-- of which it needs one more than the timeout has spans of two seconds.
--
-- Not modelled: the lines that the parts write to the log, but for LogSummary; the registration of the
-- types with the scheme and the generated deep copies. Timeouts of the probes are a matter of the
-- outside. An event type or a phase outside the declared ones does not occur. A nil map of the status
-- reads like an empty one. Access to the file system by others between two calls of the program is not
-- considered within a call of its parts, except where WaitForReady waits for it.
pub mod Base
pub mod Api
pub mod Host
pub mod Detector
pub mod HealthCheck
pub mod PodRestart
pub mod Writer
pub mod Generator
pub mod Kubeconfig
pub mod Signer
pub mod Backup
pub mod State
pub mod Rollback
pub mod Notifier
pub mod Controller
pub mod Tests
pub mod Config
pub mod Logger
pub mod Start
