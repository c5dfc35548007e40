-- ===== src/Alert/Privacy.antt =====
-- The delivery queues over any history: their bounds, what is in them, and what closing does.
use smokeping_go.Common.{
  if_elim, ◌⊎◌, ℕ, ◌≡◌, ◌≢◌, refl, sym, subst, inl, inr, Bool, true, false, not, Option, List, [],
  arith, Bool-cases, Str, All, All-append, All-set, All-get_or,
}
use smokeping_go.SlaveHealth.{is_health_group}
use smokeping_go.Alert.Queue.{
  Event, Shard, empty_shard, Queues, Action, Outcome, accepted, refused, refuse, answer, offer,
  offer_shard, enqueue_dispatch, queued, scrub_health_addresses, wanted,
}
use smokeping_go.Alert.Delivery.{
  Sound, offer_shard-Sound, empty_shard-Sound, offer_shard-pending, is_taken,
}
use smokeping_go.Alert.Evaluate.{
  Config, Evaluator, Verdict, committed, reverted, unknown, unchanged, replayed,
}
use smokeping_go.Alert.Notices.{Delivery, run}
use smokeping_go.Alert.Egress.{Kept, run-kept}

-- A property of shards that an offer of the scrubbed event keeps, enqueueing the event keeps.
module _ (S : Shard → Type 0) (start : S empty_shard) (actions : List (Str × Action)) (ev : Event)
    (keeps : (s : Shard)
      → S s
      → S (offer_shard s (queued actions (scrub_health_addresses ev))).0) where
  answer-All :
      (q : Queues) (i : ℕ) (r : Shard × Outcome)
      → S r.0
      → All S q.shards
      → All S (answer q i r).0.shards
  unfolding answer refuse
  answer-All q i (s, accepted) good h = All-set S q.shards i s good h
  answer-All q i (s, refused r) good h = h

  offer-All :
      (q : Queues)
      → All S q.shards
      → All S (offer q (queued actions (scrub_health_addresses ev))).0.shards
  unfolding offer
  offer-All q h =
      let this = queued actions (scrub_health_addresses ev) in
      answer-All q this.shard _ (keeps _ (All-get_or S q.shards this.shard empty_shard start h)) h

  enqueue-All :
      (wants : Option (Event → Bool)) (q : Queues)
      → All S q.shards
      → All S (enqueue_dispatch actions wants q ev).0.shards
  unfolding enqueue_dispatch refuse
  enqueue-All wants q h =
      if_elim {A = Queues × Outcome} (λ r. All S r.0.shards) q.closed _ _ h
        (if_elim {A = Queues × Outcome} (λ r. All S r.0.shards)
          (not (wanted wants (scrub_health_addresses ev))) _ _ h (offer-All q h))

abbrev Anything : Verdict → Type 0
Anything v = Unit

shards-Kept :
    (S : Shard → Type 0)
    → S empty_shard
    → ((s : Shard) (actions : List (Str × Action)) (ev : Event)
        → S s
        → S (offer_shard s (queued actions (scrub_health_addresses ev))).0)
    → Kept (λ q. All S q.shards) Anything
shards-Kept S start keeps = record {
  keeps = λ actions wants q ev q' o h eq.
      subst (λ r. All S r.0.shards) eq
        (enqueue-All S start actions ev (λ s k. keeps s actions ev k) wants q h);
  commits = λ actions wants q ev q' h eq. tt;
  otherwise = λ v h. tt;
}

-- Over any history of cycles, every shard keeps its bounds: its counter is the bytes of the events that
-- it holds, its channel holds at most 128, and the bytes are at most 8 MiB or those of its largest
-- event.
pub queues_stay_bounded :
    (cfg : Config) (e : Evaluator) (history : List Delivery)
    → All Sound e.queues.shards
    → All Sound (run cfg e history).0.queues.shards
queues_stay_bounded cfg e history h =
    (run-kept _ Anything
      (shards-Kept Sound empty_shard-Sound (λ s actions ev k. offer_shard-Sound s _ k)) cfg history
      e h).0

-- The event is not of a health target, or it tells no address of it: not in its target, not in its
-- cycle's target, and no hop or sample of the cycle.
abbrev pub HidesAddress : Event → Type 0
HidesAddress ev =
    (is_health_group ev.target.group ≡ false)
    ⊎ ((ev.target.target.host ≡ [])
        × (ev.target.target.url ≡ [])
        × (ev.target.target.family ≡ [])
        × (ev.cycle.target ≡ ev.target)
        × (ev.cycle.hops.items ≡ [])
        × (ev.cycle.http_samples.items ≡ []))

scrub-HidesAddress : (ev : Event) → HidesAddress (scrub_health_addresses ev)
unfolding scrub_health_addresses
scrub-HidesAddress ev = elim (Bool-cases (is_health_group ev.target.group)) [
  | inl health ↦ rw health (inr (refl, refl, refl, refl, refl, refl))
  | inr other ↦ subst HidesAddress (sym (unscrubbed other)) (inl other)
]
  where
    unscrubbed : is_health_group ev.target.group ≡ false → scrub_health_addresses ev ≡ ev
    unscrubbed other = rw (other, scrub_health_addresses) refl

abbrev pub AllHidden : Shard → Type 0
AllHidden s = All (λ q. HidesAddress q.event) s.pending

offer-AllHidden :
    (s : Shard) (actions : List (Str × Action)) (ev : Event)
    → AllHidden s
    → AllHidden (offer_shard s (queued actions (scrub_health_addresses ev))).0
unfolding queued
offer-AllHidden s actions ev h =
    let this = queued actions (scrub_health_addresses ev) in
    subst (All (λ q. HidesAddress q.event)) (sym (offer_shard-pending s this))
      (All-append _ s.pending _ h (one (offer_shard s this).1))
  where
    one :
        (o : Outcome)
        → All (λ q. HidesAddress q.event) (is_taken o (queued actions (scrub_health_addresses ev)))
    one accepted = (scrub-HidesAddress ev, tt)
    one (refused r) = tt

-- Over any history of cycles, no event that waits for the dispatcher tells an address of a health
-- target.
pub health_addresses_stay_inside :
    (cfg : Config) (e : Evaluator) (history : List Delivery)
    → All AllHidden e.queues.shards
    → All AllHidden (run cfg e history).0.queues.shards
health_addresses_stay_inside cfg e history h =
    (run-kept _ Anything (shards-Kept AllHidden tt offer-AllHidden) cfg history e h).0

abbrev pub is_committed : Verdict → Bool
is_committed (committed ev) = true
is_committed _ = false

closed-Kept : Kept (λ q. q.closed ≡ true) (λ v. is_committed v ≡ false)
unfolding enqueue_dispatch refuse
closed-Kept = record {
  keeps = λ actions wants q ev q' o h eq. ground arith;
  commits = λ actions wants q ev q' h eq. absurd (ground arith);
  otherwise = none';
}
  where
    none' : (v : Verdict) → ((ev : Event) → v ≢ committed ev) → is_committed v ≡ false
    none' (committed ev) h = absurd (h ev refl)
    none' (reverted ev r) h = refl
    none' unknown h = refl
    none' (replayed d) h = refl
    none' unchanged h = refl

-- After Close, no history of cycles commits a transition, and the queues stay closed.
pub closed_commits_nothing :
    (cfg : Config) (e : Evaluator) (history : List Delivery)
    → e.queues.closed ≡ true
    → ((run cfg e history).0.queues.closed ≡ true)
      × All (λ v. is_committed v ≡ false) (run cfg e history).1
closed_commits_nothing cfg e history h = run-kept _ _ closed-Kept cfg history e h
