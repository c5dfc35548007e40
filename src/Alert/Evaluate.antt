-- ===== src/Alert/Evaluate.antt =====
-- internal/alert/evaluator.go: OnCycle and evaluate, which judge a cycle by each alert of its target,
-- and Refresh and PruneDeparted, which follow a reload of the config. What is logged and its rate
-- limit are left out; the verdicts say what the code logs.
use smokeping_go.Common.{
  ℕ, ◌-◌, Bool, true, false, not, ◌&&◌, ◌||◌, Option, none, some, List, [], ◌∷◌, map, ltb, leb,
  nat_beq, if◌then◌else◌, Str, str_eq, str_beq, length, ◌++◌, bool_beq, ◌>>=◌,
}
use smokeping_go.Common.Map
use smokeping_go.SlaveHealth.{is_health_group}
use smokeping_go.Cycle.{Target, Cycle, id}
use smokeping_go.Alert.Key.{AggKey, key_eq}
use smokeping_go.Alert.Window.{older, staleness_window, alert_freshness, liveness_window}
use smokeping_go.Alert.State.{
  State, ok, firing, state_beq, AlertState, new_state, admits, accept, advance, Warmup, ready,
}
use smokeping_go.Alert.Sources.{Sources, Tally, tally, prune_quiet_sources, firing_sources}
use smokeping_go.Alert.Queue.{
  Quorum, enabled, threshold, AlertConfig, Action, Event, Queues, Reason, Outcome, accepted,
  refused, enqueue_dispatch, new_queues,
}

pub record TargetGroup : Type 0 where
  pub group : Str
  pub targets : List Target

-- config.Config, as far as the evaluator reads it.
pub record Config : Type 0 where
  pub interval : ℕ
  pub alerts : List (Str × AlertConfig)
  pub actions : List (Str × Action)
  pub targets : List TargetGroup

pub record Evaluator : Type 0 where
  pub wants : Option (Event → Bool)  -- the dispatcher's filter
  pub conds : List (Str × (Cycle → Bool))
  pub quorum_enabled : List (Str × Bool)
  pub states : List (AggKey × Sources)
  pub agg : List (AggKey × State)
  pub warmup : List (AggKey × Warmup)
  pub queues : Queues

-- What one alert makes of one cycle.
pub data Verdict : Type 0 where
  unknown : Verdict  -- the alert is not configured, or has no condition
  replayed : ℕ → Verdict  -- the cycle is one that was applied already
  unchanged : Verdict
  committed : Event → Verdict
  reverted : Event → Reason → Verdict

-- What the tally asks for.
unfoldable pub decide : Quorum → Tally → State
decide q t =
    if ltb 0 t.live_count && leb (threshold q t.live_count) t.firing_count then firing else ok

abbrev pub state_or_ok : Option State → State
state_or_ok none = ok
state_or_ok (some s) = s

abbrev pub has_source : Str → List Str → Bool
has_source s [] = false
has_source s (x ∷ xs) = str_beq x s || has_source s xs

abbrev pub sources_or_new : Option Sources → Sources
sources_or_new none = []
sources_or_new (some m) = m

abbrev pub state_or_new : Option AlertState → AlertState
state_or_new none = new_state
state_or_new (some st) = st

-- The `if ok` after enqueueDispatch, with the evaluator that each branch leaves.
abbrev pub conclude : Event → Queues × Outcome → Evaluator → Evaluator → Evaluator × Verdict
conclude ev (q, accepted) done undone = (record done { queues = q }, committed ev)
conclude ev (q, refused r) done undone = (record undone { queues = q }, reverted ev r)

module _ (cfg : Config) (cy : Cycle) (now : ℕ) where
  abbrev pub window : ℕ
  window = liveness_window cfg.interval

  abbrev pub key_of : Str → AggKey
  key_of name = (id cy.target, name)

  -- The event of a per-source alert has no counts.
  abbrev pub source_event : Str → AlertConfig → Sources → State → State → Event
  source_event name a sources prev next = record {
    time = cy.time;
    target = cy.target;
    alert_name = name;
    alert = a;
    prev = prev;
    next = next;
    cycle = cy;
    firing_count = 0;
    live_count = 0;
    firing_sources = firing_sources sources now window;
  }

  abbrev pub quorum_event : Str → AlertConfig → Tally → State → State → Event
  quorum_event name a t prev next = record {
    time = cy.time;
    target = cy.target;
    alert_name = name;
    alert = a;
    prev = prev;
    next = next;
    cycle = cy;
    firing_count = t.firing_count;
    live_count = t.live_count;
    firing_sources = firing_sources t.sources now window;
  }

  abbrev pub put_sources : Str → Sources → Evaluator → Evaluator
  put_sources name sources e = record e { states = Map.insert (key_of name) sources e.states }

  abbrev pub put_agg : Str → State → Evaluator → Evaluator
  put_agg name s e = record e { agg = Map.insert (key_of name) s e.agg }

  -- The source's state goes back to what it was; its hits and its stamps stay.
  unfoldable pub revert : State → Sources → Sources
  revert prev sources = elim (Map.lookup cy.source sources) [
    | none ↦ sources
    | some st ↦ Map.insert cy.source (record st { state = prev }) sources
  ]

  unfoldable pub settle_source :
      Evaluator → Str → AlertConfig → Sources → State → State → Evaluator × Verdict
  unfolding revert
  settle_source e name a sources prev next =
      let quiet = prune_quiet_sources sources now window in
      if state_beq prev next
      then (put_sources name quiet e, unchanged)
      else (let ev = source_event name a quiet prev next in
          conclude ev (enqueue_dispatch cfg.actions e.wants e.queues ev) (put_sources name quiet e)
            (put_sources name (revert prev quiet) e))

  abbrev pub warmup_or_new : Option Warmup → Warmup
  warmup_or_new none = record { first_seen = now; sources_seen = [] }
  warmup_or_new (some w) = w

  unfoldable pub sight : Warmup → Warmup
  sight w =
      if has_source cy.source w.sources_seen
      then w
      else record w { sources_seen = cy.source ∷ w.sources_seen }

  -- Only a new firing is gated.
  unfoldable pub gate : State → State → Warmup → State
  gate prev next w =
      if state_beq next firing
        && (not (state_beq prev firing) && not (ready w now (staleness_window cfg.interval)))
      then prev
      else next

  unfoldable pub settle_quorum : Evaluator → Str → AlertConfig → Sources → Evaluator × Verdict
  unfolding decide sight gate
  settle_quorum e name a sources =
      let t = tally sources now window in
      let prev = state_or_ok (Map.lookup (key_of name) e.agg) in
      let w = sight (warmup_or_new (Map.lookup (key_of name) e.warmup)) in
      let next = gate prev (decide a.quorum t) w in
      let e' = record (put_sources name t.sources e) {
        warmup = Map.insert (key_of name) w e.warmup;
      } in
      if state_beq prev next
      then (e', unchanged)
      else (let ev = quorum_event name a t prev next in
          conclude ev (enqueue_dispatch cfg.actions e.wants e.queues ev) (put_agg name next e')
            (put_agg name prev e'))

  -- The state of the source once the cycle is applied.
  unfoldable pub measured : AlertConfig → (Cycle → Bool) → AlertState → AlertState
  measured a cond st =
      advance a.sustained (cond cy) (record (accept st cy.time now) { last_seen = now })

  unfoldable pub judge : Evaluator → Str → AlertConfig → (Cycle → Bool) → Evaluator × Verdict
  unfolding measured settle_source settle_quorum
  judge e name a cond =
      let sources = sources_or_new (Map.lookup (key_of name) e.states) in
      let st = state_or_new (Map.lookup cy.source sources) in
      if not (admits st cy.time now)
      then (
        put_sources name (Map.insert cy.source st sources) e,
        replayed (st.last_cycle - cy.time),
      )
      else (let st' = measured a cond st in
          let sources' = Map.insert cy.source st' sources in
          if not (enabled a.quorum)
          then settle_source e name a sources' st.state st'.state
          else settle_quorum e name a sources')

  unfoldable pub evaluate_alert : Evaluator → Str → Evaluator × Verdict
  unfolding judge
  evaluate_alert e name = elim (Map.lookup name cfg.alerts) [
    | none ↦ (e, unknown)
    | some a ↦ elim (Map.lookup name e.conds) [
      | none ↦ (e, unknown)
      | some cond ↦ judge e name a cond
    ]
  ]

  unfoldable pub evaluate : Evaluator → List Str → Evaluator × List Verdict
  unfolding evaluate_alert
  evaluate e [] = (e, [])
  evaluate e (name ∷ names) =
      let (e', v) = evaluate_alert e name in let (e'', vs) = evaluate e' names in (e'', v ∷ vs)

unfoldable pub on_cycle : Config → ℕ → Evaluator → Cycle → Evaluator × List Verdict
unfolding evaluate
on_cycle cfg now e cy =
    if nat_beq cy.sent 0
    then (e, [])
    else if nat_beq (length cy.target.target.alerts) 0
    then (e, [])
    else if older (alert_freshness cfg.interval) now cy.time
    then (e, [])
    else evaluate cfg cy now e cy.target.target.alerts

-- ValidateConditions
unfoldable pub validate_conditions : List (Str × AlertConfig) → Option (List (Str × (Cycle → Bool)))
validate_conditions [] = some []
validate_conditions ((name, a) ∷ alerts) = do
  cond ← a.condition
  rest ← validate_conditions alerts
  some ((name, cond) ∷ rest)

-- refreshConditions
unfoldable pub refresh_conditions : Config → Evaluator → Option Evaluator
unfolding validate_conditions
refresh_conditions cfg e = do
  conds ← validate_conditions cfg.alerts
  some (record e {
    conds = conds;
    quorum_enabled = map (λ entry. (entry.0, enabled entry.1.quorum)) cfg.alerts;
  })

-- Whether an alert came, went or changed between quorum and per-source.
abbrev pub is_stale : List (Str × Bool) → List (Str × Bool) → Str → Bool
is_stale old new alert = elim (Map.lookup alert old) [
  | none ↦ true
  | some was ↦ elim (Map.lookup alert new) [ none ↦ true | some now ↦ not (bool_beq was now) ]
]

-- The sweep of agg takes the warm-up of its keys along, and the sweep of warmup takes the rest.
unfoldable pub prune_stale_aggregates : List (Str × Bool) → Evaluator → Evaluator
prune_stale_aggregates old e = record e {
  agg = Map.retain (λ key v. not (is_stale old e.quorum_enabled key.1)) e.agg;
  warmup = Map.retain (λ key v. not (is_stale old e.quorum_enabled key.1)) e.warmup;
}

unfoldable pub refresh : Config → Evaluator → Option Evaluator
unfolding refresh_conditions prune_stale_aggregates
refresh cfg e = do e' ← refresh_conditions cfg e; some (prune_stale_aggregates e.quorum_enabled e')

abbrev pub names_alert : Str → List Str → Bool
names_alert alert [] = false
names_alert alert (a ∷ as') = str_beq a alert || names_alert alert as'

abbrev pub live_in : Str → List Target → AggKey → Bool
live_in group [] key = false
live_in group (t ∷ ts) key =
    str_beq (id (record { group = group; target = t })) key.0 && names_alert key.1 t.alerts
    || live_in group ts key

abbrev pub is_live : List TargetGroup → AggKey → Bool
is_live [] key = false
is_live (g ∷ gs) key = live_in g.group g.targets key || is_live gs key

-- Whether the part before the first `/` names the health group; `false` without a `/`.
abbrev pub in_health_group : Str → Str → Bool
in_health_group seen [] = false
in_health_group seen (c ∷ s) =
    if nat_beq c b'/' then is_health_group seen else in_health_group (seen ++ c ∷ []) s

abbrev pub survives : Config → AggKey → Bool
survives cfg key = Map.has key.1 cfg.alerts && (is_live cfg.targets key || in_health_group [] key.0)

-- pruneDepartedTargets; agg and warmup lose the keys that it finds in states.
unfoldable pub prune_departed : Config → Evaluator → Evaluator
prune_departed cfg e = record e {
  states = Map.retain (λ key v. survives cfg key) e.states;
  agg = Map.retain (λ key v. not (Map.has key e.states) || survives cfg key) e.agg;
  warmup = Map.retain (λ key v. not (Map.has key e.states) || survives cfg key) e.warmup;
}

-- NewEvaluator
unfoldable pub new_evaluator : Config → Option (Event → Bool) → Option Evaluator
new_evaluator cfg wants = refresh_conditions cfg (record {
  wants = wants;
  conds = [];
  quorum_enabled = [];
  states = [];
  agg = [];
  warmup = [];
  queues = new_queues;
})
