-- ===== src/Tests/Starts.antt =====
-- Examples of configurations and starts.
use cert_rotator.Base.{
  String, string_eq, string_dec, true, false, [], none, ◌==◌, ◌≡◌, ◌≢◌, refl, arith, any, ◌⊎◌,
}
use cert_rotator.Base.Int.{pos}
use cert_rotator.Config.{Config, Vars, load}
use cert_rotator.Config.Reload.{listing, getenv, IsSayable, load-listing}
use cert_rotator.Start.{Flags, Framework, main}
use cert_rotator.Start.Booted.{exit_code, steps_of, IsReady, is_started, main_lem}
use cert_rotator.Host.{World}
use cert_rotator.Tests.Outside.{with_files}

not_empty : (s : String) → (s == "") ≡ false → s ≢ ""
not_empty s h = ground (arith, h)

abbrev config : Config
config = record {
  backup_dir = "/backups";
  state_file = "/state.json";
  renewal_threshold_days = pos 30;
  check_interval = pos 86400000000000;
  pki_dir = "/pki";
  manifest_dir = "/manifests";
  kubeconfig_dir = "/conf";
  ca_key_path = "/pki/ca.key";
  etcd_ca_key_path = "/pki/etcd/ca.key";
  front_proxy_ca_key_path = "/pki/front-proxy-ca.key";
  current_node = "n1";
  smtp_enabled = true;
  smtp_host = "";
  smtp_port = pos 25;
  smtp_from = "";
  smtp_to = [];
  slack_webhook_enabled = false;
  slack_webhook_url = "";
  dry_run = false;
}

config-IsSayable : IsSayable config (pos 24)
unfolding string_eq string_dec
config-IsSayable = record {
  full = (
    not_empty "/backups" refl,
    (
      not_empty "/state.json" refl,
      (
        not_empty "/pki" refl,
        (
          not_empty "/manifests" refl,
          (
            not_empty "/conf" refl,
            (
              not_empty "/pki/ca.key" refl,
              (not_empty "/pki/etcd/ca.key" refl, (not_empty "/pki/front-proxy-ca.key" refl, tt)),
            ),
          ),
        ),
      ),
    ),
  );
  in_range =
      ((omega arith, omega arith), ((omega arith, omega arith), ((omega arith, omega arith), tt)));
  interval = refl;
  nobody = refl;
}

load-listing_example : load (getenv (listing config (pos 24))) ≡ config
load-listing_example = load-listing config (pos 24) config-IsSayable

abbrev flags : Flags
flags = record { metrics_addr = ":8080"; probe_addr = ":8081"; enable_leader_election = false }

abbrev framework : Framework
framework = record {
  get_config = none;
  new_manager = λ _. none;
  complete = none;
  add_healthz_check = none;
  add_readyz_check = none;
  start = none;
}

abbrev named : Vars
named key = "n1"

main_lem_example :
    ((named "MY_NODE_NAME" ≢ "")
      × IsReady framework flags
      × (main framework flags named ≡ (exit_code none, steps_of flags "n1")))
    ⊎ ((any is_started (main framework flags named).1 ≡ false)
        × ((main framework flags named).0 ≡ 1))
main_lem_example = main_lem framework flags named

abbrev here : World
here = with_files []
