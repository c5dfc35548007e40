-- ===== src/Alert/Examples.antt =====
-- An alert over two sources, at concrete cycles.
use smokeping_go.Common.{
  leb, ◌&&◌, ◌+◌, ℕ, ◌*◌, ◌<◌, ◌≡◌, ◌↔◌, refl, true, false, none, some, List, [], ◌∷◌, arith, bytes,
  Str, str_eq, All,
}
use smokeping_go.Common.Map
use smokeping_go.Common.Map.{IsMap}
use smokeping_go.Cycle.{Cycle, no_items}
use smokeping_go.Alert.Key.{key_eq}
use smokeping_go.Alert.Window.{alert_identity_retention, staleness_window, alert_freshness}
use smokeping_go.Alert.State.{ok, firing, state_beq, AlertState, new_state, admits, accept}
use smokeping_go.Alert.Replay.{arrive_all, replay_refused}
use smokeping_go.Alert.Sustained.{after, streak, classify, advance-classify}
use smokeping_go.Alert.Sources.{Sources, tally, firing_sources, expire}
use smokeping_go.Alert.Queue.{AlertConfig, QueuedEvent, enabled, enqueue_dispatch, new_queues}
use smokeping_go.Alert.Delivery.{Step, offering, receiving, finishing}
use smokeping_go.Alert.Evaluate.{Config, Evaluator, judge, on_cycle, decide}
use smokeping_go.Alert.Retention.{tally_forgets_safely}
use smokeping_go.Alert.Majority.{count, majority_decides}
use smokeping_go.Alert.Commit.{Agrees, told, judge_commits_what_is_queued}
use smokeping_go.Alert.Chain.{Chain, aggregate, events_of}
use smokeping_go.Alert.Notices.{Delivery, run, run-Chain}
use smokeping_go.Alert.Privacy.{AllHidden, health_addresses_stay_inside}

abbrev majority : AlertConfig
majority = record {
  condition = some (λ c. true);
  sustained = 1;
  actions = [];
  quorum = record { majority = true; least = 0 };
}

abbrev cfg : Config
cfg = record {
  interval = 60000000000;
  alerts = (bytes "down", majority) ∷ [];
  actions = [];
  targets = [];
}

abbrev cycle_of : Str → ℕ → Cycle
cycle_of source t = record {
  time = t;
  target = record {
    group = bytes "_cluster";
    target = record {
      name = bytes "one";
      title = [];
      host = bytes "192.0.2.1";
      url = [];
      probe = bytes "icmp";
      alerts = bytes "down" ∷ [];
      family = bytes "v4";
      slaves = [];
    };
  };
  probe_name = bytes "icmp";
  source = source;
  rtts = no_items;
  sent = 1;
  loss_count = 1;
  summary = record { low = 0; high = 0; mean = 0; median = 0; std_dev = 0; percentiles = [] };
  hops = no_items;
  http_samples = no_items;
}

abbrev fresh : Evaluator
fresh = record {
  wants = none;
  conds = (bytes "down", λ c. true) ∷ [];
  quorum_enabled = (bytes "down", true) ∷ [];
  states = [];
  agg = [];
  warmup = [];
  queues = new_queues;
}

-- Two sources report the target as down, one after the other.
abbrev outage : List Delivery
outage =
    record { clock = 1000; cycle = cycle_of (bytes "s1") 900 }
    ∷ record { clock = 1001; cycle = cycle_of (bytes "s2") 900 }
    ∷ []

replay_refused_example :
    admits
      (arrive_all (accept new_state 900 1000) (record { stamp = 950; clock = 940 } ∷ []))
      900
      990
    ≡ false
replay_refused_example =
    replay_refused new_state 900 1000 (record { stamp = 950; clock = 940 } ∷ []) 990 (omega arith)

advance-classify_example :
    ((after 2 (true ∷ true ∷ false ∷ [])).consec_hits ≡ streak (true ∷ true ∷ false ∷ []))
    × ((after 2 (true ∷ true ∷ false ∷ [])).state ≡ classify 2 (streak (true ∷ true ∷ false ∷ [])))
advance-classify_example = advance-classify 2 (true ∷ true ∷ false ∷ [])

-- One source is live and firing, one has been silent for longer than the retention.
abbrev live_state : AlertState
live_state = record new_state {
  state = firing;
  consec_hits = 1;
  last_seen = 9000000000000000;
  seen_cycle = true;
  last_cycle = 9000000000000000;
}

abbrev silent_state : AlertState
silent_state = record new_state { last_seen = 5; seen_cycle = true; last_cycle = 5 }

abbrev sources : Sources
sources = (bytes "s1", live_state) ∷ (bytes "s2", silent_state) ∷ []

sources-IsMap : IsMap sources
unfolding Map.has
sources-IsMap = (refl, (refl, tt))

abbrev now : ℕ
now = 9000000000000001

silent_found : Map.lookup (bytes "s2") sources ≡ some silent_state
unfolding Map.lookup
silent_found = refl

silent_gone : Map.lookup (bytes "s2") (tally sources now 100).sources ≡ none
unfolding tally expire Map.lookup alert_identity_retention alert_freshness staleness_window
silent_gone = refl

tally_forgets_safely_example : on_cycle cfg now fresh (cycle_of (bytes "s2") 4) ≡ (fresh, [])
tally_forgets_safely_example =
    tally_forgets_safely sources (bytes "s2") silent_state 100 now now cfg fresh
      (cycle_of (bytes "s2") 4) sources-IsMap silent_found silent_gone (omega arith) (omega arith)
      (omega arith)

majority_decides_example : (decide majority.quorum (tally sources now 100) ≡ firing) ↔ (
    count (λ src st. leb now (st.last_seen + 100)) sources
    < 2 * count (λ src st. leb now (st.last_seen + 100) && state_beq st.state firing) sources)
majority_decides_example = majority_decides majority.quorum sources now 100 refl

judge_commits_what_is_queued_example :
    let cy = cycle_of (bytes "s1") 900 in
    let r = judge cfg cy 1000 fresh (bytes "down") majority (λ c. true) in
    Agrees
      (enqueue_dispatch cfg.actions fresh.wants fresh.queues)
      fresh.queues
      r.0.queues
      (told cy (bytes "down") majority fresh)
      (told cy (bytes "down") majority r.0)
      r.1
judge_commits_what_is_queued_example =
    judge_commits_what_is_queued cfg (cycle_of (bytes "s1") 900) 1000 fresh (bytes "down") majority
      (λ c. true)

configured : Map.lookup (bytes "down") cfg.alerts ≡ some majority
unfolding Map.lookup
configured = refl

majority_on : enabled majority.quorum ≡ true
unfolding enabled
majority_on = refl

run-Chain_example :
    let r = run cfg fresh outage in
    Chain
      (aggregate (bytes "_cluster/one", bytes "down") fresh)
      (events_of (bytes "_cluster/one", bytes "down") r.1)
      (aggregate (bytes "_cluster/one", bytes "down") r.0)
run-Chain_example =
    run-Chain cfg (bytes "_cluster/one") (bytes "down") majority configured majority_on outage fresh

health_addresses_stay_inside_example : All AllHidden (run cfg fresh outage).0.queues.shards
health_addresses_stay_inside_example =
    health_addresses_stay_inside cfg fresh outage (tt, (tt, (tt, (tt, (tt, (tt, (tt, (tt, tt))))))))

-- One source has reported the target as down, and the aggregate is not yet warm.
abbrev one_report : Evaluator
one_report = (on_cycle cfg 1000 fresh (cycle_of (bytes "s1") 900)).0

abbrev an_event : QueuedEvent
an_event = record {
  event = record {
    time = 900;
    target = (cycle_of (bytes "s1") 900).target;
    alert_name = bytes "down";
    alert = majority;
    prev = ok;
    next = firing;
    cycle = cycle_of (bytes "s1") 900;
    firing_count = 1;
    live_count = 1;
    firing_sources = bytes "s1" ∷ [];
  };
  bytes = 9000000;
  shard = 0;
  actions = [];
}

-- An event above the shard's bytes is taken alone; the next one is refused until it is finished.
abbrev some_steps : List Step
some_steps = offering an_event ∷ offering an_event ∷ receiving ∷ finishing ∷ offering an_event ∷ []
