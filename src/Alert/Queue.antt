-- ===== src/Alert/Queue.antt =====
-- internal/alert/evaluator.go: the events, what they retain, the hash that gives a (target, alert) its
-- shard, and enqueueDispatch. A shard's channel is a list, oldest first. The worker's receive and its
-- release of the bytes are the steps `receive` and `finish`.
use Prim.Native.Nat.{bit_xor}
use smokeping_go.Common.{
  ℕ, ◌+◌, ◌-◌, ◌*◌, ◌/◌, ◌%◌, Bool, true, false, not, ◌&&◌, ◌||◌, Option, none, some, List, [], ◌∷◌,
  ◌++◌, ltb, leb, nat_beq, if◌then◌else◌, Str, str_eq, length, get_or, set, replicate,
}
use smokeping_go.Common.Map
use smokeping_go.Limits.{max_cycles_per_batch, u64_mod}
use smokeping_go.Cycle.{TargetRef, Cycle, Hop, HttpSample, id, no_items}
use smokeping_go.SlaveHealth.{is_health_group}
use smokeping_go.Alert.State.{State}

-- config.Quorum
pub record Quorum : Type 0 where
  pub majority : Bool
  pub least : ℕ

unfoldable pub enabled : Quorum → Bool
enabled q = q.majority || ltb 0 q.least

unfoldable pub threshold : Quorum → ℕ → ℕ
threshold q live = if q.majority then live / 2 + 1 else q.least

-- config.Alert; its condition is what ParseCondition makes of the text, `none` where it refuses it.
pub record AlertConfig : Type 0 where
  pub condition : Option (Cycle → Bool)
  pub sustained : ℕ
  pub actions : List Str
  pub quorum : Quorum

pub record Action : Type 0 where
  pub type : Str
  pub url : Str
  pub command : Str
  pub template : Str

pub record NamedAction : Type 0 where
  pub name : Str
  pub action : Option Action

pub record Event : Type 0 where
  pub time : ℕ
  pub target : TargetRef
  pub alert_name : Str
  pub alert : AlertConfig
  pub prev : State
  pub next : State
  pub cycle : Cycle
  pub firing_count : ℕ
  pub live_count : ℕ
  pub firing_sources : List Str

pub record QueuedEvent : Type 0 where
  pub event : Event
  pub bytes : ℕ
  pub shard : ℕ
  pub actions : List NamedAction

abbrev pub dispatch_shards : ℕ
dispatch_shards = 8

abbrev pub dispatch_shard_depth : ℕ
dispatch_shard_depth = max_cycles_per_batch / dispatch_shards

abbrev pub dispatch_shard_bytes : ℕ
dispatch_shard_bytes = 67108864 / dispatch_shards

-- A delivery worker: its channel, the event that it is delivering, and the counter of the bytes that
-- both hold.
pub record Shard : Type 0 where
  pub pending : List QueuedEvent
  pub delivering : Option QueuedEvent
  pub queued_bytes : ℕ

abbrev pub empty_shard : Shard
empty_shard = record { pending = []; delivering = none; queued_bytes = 0 }

pub record Queues : Type 0 where
  pub shards : List Shard
  pub closed : Bool
  pub refusals : ℕ  -- uint64

abbrev pub new_queues : Queues
new_queues = record { shards = replicate dispatch_shards empty_shard; closed = false; refusals = 0 }

abbrev pub fnv_offset : ℕ
fnv_offset = 14695981039346656037

abbrev pub fnv_prime : ℕ
fnv_prime = 1099511628211

unfoldable pub fnv : ℕ → Str → ℕ
fnv h [] = h
fnv h (c ∷ s) = fnv (bit_xor h c * fnv_prime % u64_mod) s

unfoldable pub shard_for : Str → Str → ℕ
unfolding fnv
shard_for target alert = fnv (fnv fnv_offset target * fnv_prime % u64_mod) alert % dispatch_shards

unfoldable pub hops_bytes : List Hop → ℕ
hops_bytes [] = 0
hops_bytes (h ∷ hs) = length h.rtts.items * 8 + length h.ip + length h.unreach + hops_bytes hs

unfoldable pub samples_bytes : List HttpSample → ℕ
samples_bytes [] = 0
samples_bytes (s ∷ ss) = length s.err + samples_bytes ss

unfoldable pub names_bytes : List Str → ℕ
names_bytes [] = 0
names_bytes (s ∷ ss) = length s + names_bytes ss

-- probe.Hop is 88 bytes, probe.HTTPSample 56 and a string 16.
unfoldable pub event_bytes : Event → ℕ
unfolding hops_bytes samples_bytes names_bytes
event_bytes ev =
    length ev.cycle.rtts.items * 8
    + length ev.cycle.hops.items * 88
    + hops_bytes ev.cycle.hops.items
    + length ev.cycle.http_samples.items * 56
    + samples_bytes ev.cycle.http_samples.items
    + length ev.firing_sources * 16
    + names_bytes ev.firing_sources

abbrev pub action_strings : Option Action → ℕ
action_strings none = 0
action_strings (some a) = length a.type + length a.url + length a.command + length a.template

-- NamedAction is 88 bytes.
unfoldable pub actions_bytes : List NamedAction → ℕ
actions_bytes [] = 0
actions_bytes (a ∷ as') = 88 + length a.name + action_strings a.action + actions_bytes as'

unfoldable pub resolve_actions : List (Str × Action) → List Str → List NamedAction
resolve_actions actions [] = []
resolve_actions actions (n ∷ ns) =
    record { name = n; action = Map.lookup n actions } ∷ resolve_actions actions ns

unfoldable pub scrub_health_addresses : Event → Event
scrub_health_addresses ev =
    if is_health_group ev.target.group
    then (let target = record (ev.target) {
      target = record (ev.target.target) { host = []; url = []; family = [] };
    } in
        record ev {
          target = target;
          cycle = record (ev.cycle) { target = target; hops = no_items; http_samples = no_items };
        })
    else ev

pub data Reason : Type 0 where
  is_closed over_bytes over_depth : Reason

-- `accepted` also stands for an event that the dispatcher does not want.
pub data Outcome : Type 0 where
  accepted : Outcome
  refused : Reason → Outcome

unfoldable pub refuse : Queues → Reason → Queues × Outcome
refuse q reason = (record q { refusals = (q.refusals + 1) % u64_mod }, refused reason)

-- DispatchFilter: `none` where the dispatcher does not implement it.
abbrev pub wanted : Option (Event → Bool) → Event → Bool
wanted none ev = true
wanted (some f) ev = f ev

-- One shard's answer: its bytes, then its depth. An event that would be all of the bytes passes.
unfoldable pub offer_shard : Shard → QueuedEvent → Shard × Outcome
offer_shard s ev =
    let held = s.queued_bytes + ev.bytes in
    if ltb dispatch_shard_bytes held && not (nat_beq held ev.bytes)
    then (s, refused over_bytes)
    else if leb dispatch_shard_depth (length s.pending)
    then (s, refused over_depth)
    else (record s { pending = s.pending ++ ev ∷ []; queued_bytes = held }, accepted)

-- The `select` on the shard's answer.
unfoldable pub answer : Queues → ℕ → Shard × Outcome → Queues × Outcome
unfolding refuse
answer q i (s, accepted) = (record q { shards = set q.shards i s }, accepted)
answer q i (s, refused reason) = refuse q reason

unfoldable pub offer : Queues → QueuedEvent → Queues × Outcome
unfolding answer offer_shard
offer q ev = answer q ev.shard (offer_shard (get_or q.shards ev.shard empty_shard) ev)

-- The event as it is queued.
unfoldable pub queued : List (Str × Action) → Event → QueuedEvent
queued actions ev =
    let snapshot = resolve_actions actions ev.alert.actions in
    record {
      event = ev;
      bytes = event_bytes ev + actions_bytes snapshot;
      shard = shard_for (id ev.target) ev.alert_name;
      actions = snapshot;
    }

unfoldable pub enqueue_dispatch :
    List (Str × Action) → Option (Event → Bool) → Queues → Event → Queues × Outcome
unfolding refuse
enqueue_dispatch actions filter q ev =
    let scrubbed = scrub_health_addresses ev in
    if q.closed
    then refuse q is_closed
    else if not (wanted filter scrubbed)
    then (q, accepted)
    else offer q (queued actions scrubbed)

-- The receive of deliverLoop: an idle worker takes the oldest event of its channel.
unfoldable pub receive : Shard → Shard
receive s = elim s.delivering [
  | some busy ↦ s
  | none ↦ elim s.pending [ [] ↦ s | ev ∷ rest ↦ record s { pending = rest; delivering = some ev } ]
]

-- The deferred release of deliver, once the dispatcher has returned or panicked.
unfoldable pub finish : Shard → Shard
finish s = elim s.delivering [
  | none ↦ s
  | some ev ↦ record s { delivering = none; queued_bytes = s.queued_bytes - ev.bytes }
]

-- The last loop of deliverLoop, after the worker was told to quit.
unfoldable pub release_pending : List QueuedEvent → ℕ → ℕ
release_pending [] bytes = bytes
release_pending (ev ∷ rest) bytes = release_pending rest (bytes - ev.bytes)

unfoldable pub abandon : Shard → Shard
unfolding release_pending
abandon s = record s { pending = []; queued_bytes = release_pending s.pending s.queued_bytes }

unfoldable pub close : Queues → Queues
close q = record q { closed = true }
