-- ===== src/Server/Serving.antt =====
-- internal/cluster/master/config.go and handleConfig of server.go: what a slave is told to probe, and
-- what the master probes itself. The ETag is an argument: it is a hash of the response's JSON.
use smokeping_go.Common.{
  ℤ, Bool, true, false, not, ◌&&◌, Option, List, [], ◌∷◌, ◌++◌, map, pos, if◌then◌else◌, Str,
  str_eq, str_beq, Eq, keep,
}
use smokeping_go.Common.Map
use smokeping_go.Cycle.{Target}
use smokeping_go.SlaveHealth.{probe_name}
use smokeping_go.SlaveHealth.Snapshot
use smokeping_go.SlaveHealth.Snapshot.{Group, probe_def}
use smokeping_go.Config.{Config, Probe, hops_enabled, valid_slave_name}
use smokeping_go.Registry.{touch}
use smokeping_go.Server.{Server, Headers, World, Platform}

pub record ProbeDto : Type 0 where
  pub type : Str
  pub timeout : ℤ
  pub insecure : Bool
  pub no_trace : Bool

pub record ClusterConfigResp : Type 0 where
  pub interval : ℤ
  pub pings : ℤ
  pub probes : List (Str × ProbeDto)
  pub targets : List Group
  pub hop_markers : Bool

pub data ConfigReply : Type 0 where
  refused : ConfigReply  -- 400, marked permanent
  not_modified : Str → ConfigReply  -- 304
  served : Str → ClusterConfigResp → ConfigReply  -- 200

unfoldable pub contains : Str → List Str → Bool
contains name [] = false
contains name (n ∷ ns) = if str_beq n name then true else contains name ns

abbrev pub assigned : Target → Bool
assigned t = elim t.slaves [ [] ↦ false | _ ∷ _ ↦ true ]

unfoldable pub target_visible_to_slave : Str → Target → Bool
unfolding contains
target_visible_to_slave name t = if not (assigned t) then true else contains name t.slaves

unfoldable pub sanitize_target : Target → Target
sanitize_target t = record {
  name = t.name;
  title = t.title;
  host = t.host;
  url = t.url;
  probe = t.probe;
  alerts = [];
  family = t.family;
  slaves = [];
}

-- A group with the targets that stay; one that has none is left out.
abbrev pub with_targets : Group → List Target → List Group → List Group
with_targets g [] rest = rest
with_targets g (t ∷ ts) rest = record g { targets = t ∷ ts } ∷ rest

unfoldable pub visible_groups : Str → List Group → List Group
unfolding target_visible_to_slave sanitize_target
visible_groups name [] = []
visible_groups name (g ∷ gs) =
    with_targets g (map sanitize_target (keep (target_visible_to_slave name) g.targets))
      (visible_groups name gs)

unfoldable pub sanitized : List Group → List Group
unfolding sanitize_target
sanitized [] = []
sanitized (g ∷ gs) = record g { targets = map sanitize_target g.targets } ∷ sanitized gs

unfoldable pub local_groups : List Group → List Group
local_groups [] = []
local_groups (g ∷ gs) = with_targets g (keep (λ t. not (assigned t)) g.targets) (local_groups gs)

unfoldable pub probe_dtos : List (Str × Probe) → List (Str × ProbeDto)
probe_dtos [] = []
probe_dtos ((name, p) ∷ rest) =
    (
      name,
      record { type = p.type; timeout = p.timeout; insecure = p.insecure; no_trace = p.no_trace },
    )
    ∷ probe_dtos rest

abbrev pub health_dto : Bool → ProbeDto
health_dto hops =
    let p = probe_def 0 hops in
    record { type = p.type; timeout = pos p.timeout; insecure = false; no_trace = p.no_trace }

abbrev pub health_probe : Bool → Probe
health_probe hops =
    let p = probe_def 0 hops in
    record { type = p.type; timeout = pos p.timeout; insecure = false; no_trace = p.no_trace }

module _ {A : Type 0} (addr_string : Option A → Str) (is4 : A → Bool) where
  -- The response without the mesh, and what a mesh that has targets adds to it.
  unfoldable pub with_mesh : Config → List Group → ClusterConfigResp → ClusterConfigResp
  unfolding sanitized probe_def hops_enabled
  with_mesh cfg [] resp = resp
  with_mesh cfg (g ∷ gs) resp = record resp {
    targets = resp.targets ++ sanitized (g ∷ gs);
    probes = Map.insert probe_name (health_dto (hops_enabled cfg.cluster)) resp.probes;
  }

  unfoldable pub build_cluster_config :
      Config → Str → Option (Snapshot.Snapshot A) → ClusterConfigResp
  unfolding visible_groups probe_dtos with_mesh Snapshot.probe
  build_cluster_config cfg name health =
      with_mesh cfg (Snapshot.probe addr_string is4 health name) (record {
        interval = cfg.interval;
        pings = cfg.pings;
        probes = probe_dtos cfg.probes;
        targets = visible_groups name cfg.targets;
        hop_markers = true;
      })

  unfoldable pub with_local_mesh : List Group → Config → Config
  unfolding probe_def hops_enabled
  with_local_mesh [] cfg = cfg
  with_local_mesh (g ∷ gs) cfg = record cfg {
    targets = cfg.targets ++ g ∷ gs;
    probes = Map.insert probe_name (health_probe (hops_enabled cfg.cluster)) cfg.probes;
  }

  unfoldable pub local_targets : Config → Option (Snapshot.Snapshot A) → Config
  unfolding local_groups with_local_mesh Snapshot.probe
  local_targets cfg health =
      with_local_mesh (Snapshot.probe addr_string is4 health [])
        (record cfg { targets = local_groups cfg.targets })

module _ {A F : Type 0} ⦃e : Eq A⦄ (platform : Platform A F) (etag : ClusterConfigResp → Str) where
  abbrev pub respond : Str → ClusterConfigResp → ConfigReply
  respond if_none_match resp =
      let tag = etag resp in
      if not (str_beq tag []) && str_beq if_none_match tag
      then ConfigReply.not_modified tag
      else ConfigReply.served tag resp

  -- Touch's error is dropped.
  unfoldable pub handle_config : World A → Str → Headers → Str → Server A → ConfigReply × Server A
  unfolding touch build_cluster_config valid_slave_name
  handle_config w remote h if_none_match s =
      let resp =
        build_cluster_config platform.addr_string platform.is4 w.config h.slave_name w.health in
      if str_beq h.slave_name []
      then (respond if_none_match resp, s)
      else if not (valid_slave_name h.slave_name)
      then (ConfigReply.refused, s)
      else (let t =
            touch platform.parse_advertise platform.observed w.pins w.now s.registry h.slave_name
              h.slave_version remote h.advertise in
          (respond if_none_match resp, record s { registry = t.registry }))
