-- ===== src/Config/Examples.antt =====
-- Configurations that Validate and ValidateMinimal accept, and a store that reloads.
use smokeping_go.Common.{
  ℕ, ◌≤◌, ◌<◌, ◌≡◌, ◌≢◌, refl, inl, inr, ◌-◌, ◌+◌, ◌*◌, ℤ, pos, Bool, true, false, Option, none,
  some, List, [], ◌∷◌, arith, Str, bytes, nat_eq, str_eq, All,
}
use smokeping_go.Common.Map
use smokeping_go.Cycle.{id}
use smokeping_go.Limits.{max_pings_per_cycle}
use smokeping_go.Config.{Config, Cluster, all_targets, valid_slave_name, has_control}
use smokeping_go.Config.Schedule.{
  icmp_ping_budget, icmp_ping_budget_fits, icmp_ping_spacing, min_ping_budget, has_probe_type,
  validate_interval, validate_ping_count,
}
use smokeping_go.Config.Addresses.{Reach}
use smokeping_go.Config.Validate.{
  validate, check_schedule, check_probe, check_groups, check_targets, check_target, check_alert,
  check_cluster,
}
use smokeping_go.Config.Storage.{
  check_storage, is_ident, word, check_retention, retention_within_date_time, with_defaults,
}
use smokeping_go.Config.Valid.{GroupValid, validate-GroupValid}
use smokeping_go.Config.Distinct.{validate-resolves}
use smokeping_go.Config.Store.{LoadError, Channel}
use smokeping_go.Config.Reloads.{
  Watched, Event, reloading, waking, watching, wake, run, Served, current-Served, wake_catches_up,
}
use smokeping_go.Config.Minimal.{
  Url, validate_minimal, validate_cluster_headers, accepted_never_permanent,
}
use smokeping_go.Common.Checks.{each}
use smokeping_go.Cluster.Examples.{read_byte}
use smokeping_go.Server.{World, known_targets, Reply, handle_register}
use smokeping_go.Server.Examples.{config, platform, calm, world, empty_server}

abbrev byte_reach : Reach ℕ
byte_reach = record {
  parse_addr = read_byte;
  unmap = λ a. a;
  is_unspecified = λ a. false;
  is_loopback = λ a. false;
  is_multicast = λ a. false;
  is_interface_local_multicast = λ a. false;
  is_link_local_multicast = λ a. false;
  is_link_local_unicast = λ a. false;
}

abbrev one_second : Str → Option ℤ
one_second s = some (pos 1000000000)

abbrev full_config : Config
full_config = record config {
  probes =
      (
        bytes "icmp",
        record { type = bytes "icmp"; timeout = pos 1000; insecure = false; no_trace = false },
      )
      ∷ [];
}

full_accepted : (validate byte_reach one_second 200 full_config).0 ≡ none
unfolding validate check_schedule check_storage check_probe check_groups check_targets check_target
    check_alert check_cluster is_ident word check_retention retention_within_date_time with_defaults
    each Map.has Map.insert has_probe_type validate_interval validate_ping_count icmp_ping_budget
full_accepted = refl

validate-GroupValid_example : All (GroupValid full_config) full_config.targets
validate-GroupValid_example =
    validate-GroupValid byte_reach one_second 200 full_config full_accepted

-- Two peers are in the mesh, and the configuration is the full one.
abbrev meshed : World ℕ
meshed = record world {
  config = full_config;
  health = some (record {
    peers =
        record { name = bytes "s1"; addr = some 4 }
        ∷ record { name = bytes "s2"; addr = some 5 }
        ∷ [];
    alerts = [];
  });
}

validate-resolves_example :
    All
      (λ t. Map.lookup (id t) (known_targets platform calm meshed) ≡ some t)
      (all_targets full_config)
validate-resolves_example =
    validate-resolves byte_reach one_second platform calm meshed full_accepted
      (λ i. ground (arith, i), (λ i. ground (arith, i), tt))

granted : icmp_ping_budget 1000000000 (pos 3) ≡ inr 200000000
unfolding icmp_ping_budget
granted = refl

icmp_ping_budget_fits_example :
    (n : ℕ) × (pos 3 ≡ pos n)
    × (0 < n)
    × (n ≤ max_pings_per_cycle)
    × (min_ping_budget ≤ 200000000)
    × ((n - 1) * icmp_ping_spacing + n * 200000000 ≤ 1000000000)
icmp_ping_budget_fits_example = icmp_ping_budget_fits 1000000000 200000000 (pos 3) granted

abbrev channel : Channel
channel = record { cap = 1; queued = 0 }

abbrev always : Config → Bool
always c = true

-- Two reloads on one signal, one that fails, and a wake-up between.
abbrev history : List Event
history =
    reloading 200 (inr full_config)
    ∷ reloading 201 (inr full_config)
    ∷ waking
    ∷ reloading 202 (inl LoadError.unread)
    ∷ []

current-Served_example :
    Served byte_reach one_second
      (some always)
      config
      (run byte_reach one_second
        (watching (record { current = config; sub = some channel; validator = some always }))
        history).store.current
current-Served_example =
    current-Served byte_reach one_second (some always) config (some channel) history

abbrev watched : Watched
watched = watching (record { current = config; sub = some channel; validator = none })

wake_catches_up_example :
    let last = wake (run byte_reach one_second watched history) in last.seen ≡ last.store.current
wake_catches_up_example =
    wake_catches_up byte_reach one_second watched channel history refl (ground arith) refl

abbrev any_url : Str → Option Url
any_url s = some (record { host = bytes "m"; scheme = bytes "https" })

abbrev slave_block : Cluster
slave_block = record {
  master_url = bytes "https://m";
  token = bytes "t";
  name = bytes "s1";
  advertise = bytes "4";
  slave_addrs = [];
  health_alerts = [];
  health_hops = none;
  source = [];
  buffer_bytes = pos 0;
  insecure_master_url = false;
}

slave_accepted : validate_minimal any_url (some slave_block) ≡ none
unfolding validate_minimal validate_cluster_headers valid_slave_name has_control
slave_accepted = refl

accepted_never_permanent_example :
    (handle_register platform calm world
      (bytes "4")
      (inr (record { name = bytes "s1"; version = bytes "v1"; advertise = bytes "4" }))
      empty_server).0
    ≢ Reply.permanent
accepted_never_permanent_example =
    accepted_never_permanent any_url platform calm slave_block world (bytes "4") (bytes "v1")
      empty_server slave_accepted (ground arith)
