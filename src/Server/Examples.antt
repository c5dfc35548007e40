-- ===== src/Server/Examples.antt =====
-- A master that one slave registers with and pushes to.
use smokeping_go.Common.{
  ℕ, ◌≡◌, refl, ◌⊎◌, inr, pos, Bool, true, false, Option, none, some, List, [], ◌∷◌, Str, bytes,
  nat_eq, str_eq,
}
use smokeping_go.Common.Map
use smokeping_go.Cycle.{Cycle}
use smokeping_go.Config.{Config, valid_slave_name, has_control}
use smokeping_go.Registry.{has}
use smokeping_go.Cluster.Examples.{byte_netip, read_byte, whole, a_batch, a_target}
use smokeping_go.Server.{
  Server, RegisterReq, Reply, Headers, World, Platform, new_server, handle_register, handle_cycles,
}
use smokeping_go.Server.Refusals.{
  refuses, identified, handle_cycles-refuses, permanent_refusal_stands,
}
use smokeping_go.Server.Coupling.{Coupled}
use smokeping_go.Server.Runs.{
  Event, registering, pushing, fetching, sweeping, run, reachable-Coupled,
}
use smokeping_go.Server.Attribution.{Pushed, handle_cycles-Pushed}
use smokeping_go.Server.Serving.{ClusterConfigResp}
use smokeping_go.Server.Schedules.{ServedTo, served_refs}

abbrev byte_string : Option ℕ → Str
byte_string none = []
byte_string (some a) = a ∷ []

abbrev pub platform : Platform ℕ ℕ
platform = record {
  netip = byte_netip;
  float = whole;
  half = 1;
  ratios = 0 ∷ [];
  addr_string = byte_string;
  is4 = λ a. true;
  parse_advertise = read_byte;
  observed = read_byte;
}

abbrev pub calm : Cycle → Bool
calm c = false

abbrev no_tag : ClusterConfigResp → Str
no_tag resp = []

abbrev pub config : Config
config = record {
  listen = [];
  interval = pos 1000000000;
  pings = pos 3;
  storage = record {
    addr = bytes "ch";
    database = bytes "db";
    username = bytes "u";
    cluster = [];
    retention = record {
      cycle_days = pos 1;
      rtt_days = pos 1;
      hop_days = pos 1;
      http_days = pos 1;
    };
    batch = record { max_rows = pos 10; max_interval = bytes "1s" };
  };
  probes = [];
  targets = record { group = bytes "web"; title = []; targets = a_target.target ∷ [] } ∷ [];
  alerts = [];
  actions = [];
  cluster = none;
}

abbrev pub world : World ℕ
world = record { config = config; health = none; pins = []; now = 200 }

abbrev request : RegisterReq
request = record { name = bytes "s1"; version = bytes "v1"; advertise = bytes "4" }

abbrev headers : Headers
headers = record { slave_name = bytes "s1"; slave_version = bytes "v1"; advertise = bytes "4" }

abbrev history : List (Event ℕ)
history =
    registering world (bytes "4") (inr request)
    ∷ pushing world (bytes "4") headers (inr a_batch)
    ∷ fetching world (bytes "4") headers []
    ∷ sweeping 900 10
    ∷ []

abbrev pub empty_server : Server ℕ
empty_server = new_server platform calm

abbrev after_register : Server ℕ
after_register =
    run platform calm no_tag empty_server (registering world (bytes "4") (inr request) ∷ [])

reachable-Coupled_example : Coupled (run platform calm no_tag (new_server platform calm) history)
reachable-Coupled_example = reachable-Coupled platform calm no_tag history

handle_cycles-Pushed_example :
    Pushed platform calm world after_register
      (handle_cycles platform calm world (bytes "4") headers (inr a_batch) after_register).1
handle_cycles-Pushed_example =
    handle_cycles-Pushed platform calm world (bytes "4") headers (inr a_batch) after_register
      (reachable-Coupled platform calm no_tag (registering world (bytes "4") (inr request) ∷ []))

nobody : identified platform calm empty_server headers (inr a_batch) ≡ false
unfolding identified has Map.has
nobody = refl

handle_cycles-refuses_example :
    let (reply, s') =
      handle_cycles platform calm world (bytes "4") headers (inr a_batch) empty_server in
    (refuses reply ≡ true) × (s' ≡ empty_server)
handle_cycles-refuses_example =
    handle_cycles-refuses platform calm world (bytes "4") headers (inr a_batch) empty_server nobody

abbrev master_request : RegisterReq
master_request = record request { name = bytes "master" }

reserved :
    (handle_register platform calm world (bytes "4") (inr master_request) empty_server).0
    ≡ Reply.permanent
unfolding handle_register valid_slave_name has_control
reserved = refl

permanent_refusal_stands_example :
    ((handle_register platform calm world (bytes "4") (inr master_request) after_register).0
      ≡ Reply.permanent)
    ⊎ ((handle_register platform calm world (bytes "4") (inr master_request) after_register).0
        ≡ Reply.collision)
permanent_refusal_stands_example =
    permanent_refusal_stands platform calm world world (bytes "4") (bytes "4") (inr master_request)
      empty_server after_register reserved

served_refs_example : ServedTo byte_string (λ a. true) config (bytes "s1") none
served_refs_example = served_refs byte_string (λ a. true) config (bytes "s1") none
