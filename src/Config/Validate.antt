-- ===== src/Config/Validate.antt =====
-- internal/config/config.go: Validate, and the defaults that it sets. An error is the reason that its
-- text gives; a configuration that is refused is dropped by Load, with whatever defaults it has by then.
-- The checks of the storage block stand in Config/Storage.
use smokeping_go.Common.{
  ℕ, ℤ, pos, negsuc, Bool, true, false, not, ◌&&◌, ◌||◌, Option, none, some, List, [], ◌∷◌, ◌++◌,
  ltb, nat_beq, min, if◌then◌else◌, Str, bytes, str_eq, str_beq, Eq, length,
}
use smokeping_go.Common.Checks.{◌<|>◌, refuse, each}
use smokeping_go.Common.Map
use smokeping_go.Cycle.{Target}
use smokeping_go.Limits.{max_label_len}
use smokeping_go.SlaveHealth.{health_group, probe_name}
use smokeping_go.SlaveHealth.Snapshot.{Group}
use smokeping_go.Config.{Probe, Alert, Cluster, Config, valid_source_label}
use smokeping_go.Config.Schedule.{
  validate_interval, validate_ping_count, icmp_ping_budget, has_icmp_probe, has_mtr_probe,
  has_probe_type,
}
use smokeping_go.Config.Addresses.{Reach, parsed_slave_addrs}
use smokeping_go.Config.Storage.{
  ConfigError, wrap, failure, check_storage, with_defaults, bad_schedule, bad_icmp_schedule,
  bad_mtr_schedule, reserved_probe, idle_knob, no_group_name, reserved_group, long_group,
  no_target_name, long_target, duplicate_target, no_probe, unknown_probe, long_probe, no_host,
  bad_family, unknown_alert, no_condition, bad_sustained, unknown_action, bad_source, bad_pins,
  unknown_health_alert,
}

abbrev pub not_positive : ℤ → Bool
not_positive (negsuc n) = true
not_positive (pos n) = nat_beq n 0

-- A knob on a probe that never reads it.
unfoldable pub check_probe : Str × Probe → Option ConfigError
check_probe (name, p) =
    refuse (p.no_trace && not (str_beq p.type (bytes "icmp"))) idle_knob
    <|> refuse (p.insecure && not (str_beq p.type (bytes "http"))) idle_knob

abbrev pub is_family : Str → Bool
is_family f = str_beq f [] || str_beq f (bytes "v4") || str_beq f (bytes "v6")

-- The names of a list that a map has to hold.
abbrev pub check_names : {V : Type 0} → ConfigError → List (Str × V) → List Str → Option ConfigError
check_names err m = each (λ a. refuse (not (Map.has a m)) err)

-- What a target says of itself, but for its id.
unfoldable pub check_target : Config → Target → Option ConfigError
unfolding each Map.has
check_target c t =
    refuse (str_beq t.probe []) no_probe
    <|> refuse (not (Map.has t.probe c.probes)) unknown_probe
    <|> refuse (ltb max_label_len (length t.probe)) long_probe
    <|> refuse (str_beq t.host [] && str_beq t.url []) no_host
    <|> refuse (not (is_family t.family)) bad_family
    <|> check_names unknown_alert c.alerts t.alerts

-- A group's targets, with the groups by the ids that were seen, and the check of what follows.
unfoldable pub check_targets :
    Config
    → Str
    → List Target
    → List (Str × Str)
    → (List (Str × Str) → Option ConfigError)
    → Option ConfigError
unfolding check_target Map.has Map.insert
check_targets c group [] seen rest = rest seen
check_targets c group (t ∷ ts) seen rest =
    let id = group ++ b'/' ∷ t.name in
    refuse (str_beq t.name []) no_target_name
    <|> refuse (ltb max_label_len (length t.name)) long_target
    <|> refuse (Map.has id seen) duplicate_target
    <|> check_target c t
    <|> check_targets c group ts (Map.insert id group seen) rest

unfoldable pub check_groups : Config → List Group → List (Str × Str) → Option ConfigError
unfolding check_targets
check_groups c [] seen = none
check_groups c (g ∷ gs) seen =
    refuse (str_beq g.group []) no_group_name
    <|> refuse (str_beq g.group health_group) reserved_group
    <|> refuse (ltb max_label_len (length g.group)) long_group
    <|> check_targets c g.group g.targets seen (check_groups c gs)

unfoldable pub check_alert : Config → Str × Alert → Option ConfigError
unfolding each Map.has
check_alert c (name, a) =
    refuse (str_beq a.condition []) no_condition
    <|> refuse (not_positive a.sustained) bad_sustained
    <|> check_names unknown_action c.actions a.actions

abbrev pub has_token : Option Cluster → Bool
has_token none = false
has_token (some cl) = not (str_beq cl.token [])

abbrev pub at_most_pings : ℤ → ℕ → ℤ
at_most_pings (negsuc n) m = negsuc n
at_most_pings (pos n) m = pos (min n m)

abbrev pub length_of : ℤ → ℕ
length_of (negsuc n) = 0
length_of (pos n) = n

unfoldable pub check_schedule : Config → Option ConfigError
unfolding validate_interval validate_ping_count icmp_ping_budget has_probe_type
check_schedule c =
    wrap bad_schedule (validate_interval c.interval)
    <|> wrap bad_schedule (validate_ping_count c.pings)
    <|> (if has_icmp_probe c.probes || has_token c.cluster
        then wrap bad_icmp_schedule (failure (icmp_ping_budget (length_of c.interval) c.pings))
        else none)
    <|> (if has_mtr_probe c.probes
        then wrap bad_mtr_schedule
            (failure (icmp_ping_budget (length_of c.interval) (at_most_pings c.pings 10)))
        else none)

module _ {A : Type 0} ⦃e : Eq A⦄ (reach : Reach A) (parse_duration : Str → Option ℤ) where
  unfoldable pub check_cluster : Config → Option Cluster → Option ConfigError
  unfolding each Map.has parsed_slave_addrs valid_source_label
  check_cluster c none = none
  check_cluster c (some cl) =
      refuse (not (valid_source_label cl.source)) bad_source
      <|> wrap bad_pins (failure (parsed_slave_addrs reach cl.slave_addrs))
      <|> check_names unknown_health_alert c.alerts cl.health_alerts

  -- Validate, and the configuration that it leaves when it accepts it.
  unfoldable pub validate : ℕ → Config → Option ConfigError × Config
  unfolding check_schedule check_storage check_probe check_groups check_alert check_cluster each
      Map.has with_defaults
  validate now c = (
    check_schedule c
        <|> check_storage parse_duration now c.storage
        <|> refuse (Map.has probe_name c.probes) reserved_probe
        <|> each check_probe c.probes
        <|> check_groups c c.targets []
        <|> each (check_alert c) c.alerts
        <|> check_cluster c c.cluster,
    record c { storage = with_defaults c.storage },
  )
