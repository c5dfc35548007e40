-- ===== src/Alert/Chain.antt =====
-- The notifications of a quorum alert over any history of cycles.
use smokeping_go.Common.{
  ℕ, ◌≡◌, ◌≢◌, refl, sym, ap, ◌∙◌, subst, inl, inr, Bool, true, false, List, [], ◌∷◌, ◌++◌,
  if◌then◌else◌, Bool-cases, Str, str_eq,
}
use smokeping_go.Common.Map
use smokeping_go.Cycle.{Cycle, id}
use smokeping_go.Alert.Key.{AggKey, key_eq, key_beq, key_beq_iff}
use smokeping_go.Alert.State.{State, state_beq, admits}
use smokeping_go.Alert.Sources.{Sources, tally}
use smokeping_go.Alert.Queue.{Event, Queues, Outcome, accepted, refused, AlertConfig, enabled}
use smokeping_go.Alert.Evaluate.{
  Config, Evaluator, Verdict, unknown, replayed, unchanged, committed, reverted, state_or_ok,
  conclude, settle_source, settle_quorum, judge, gate, decide, sight, warmup_or_new, window,
  sources_or_new, state_or_new,
}
use smokeping_go.Alert.Commit.{Agrees, judge_commits_what_is_queued}

abbrev pub event_key : Event → AggKey
event_key ev = (id ev.target, ev.alert_name)

abbrev pub own_events : AggKey → Verdict → List Event
own_events k (committed ev) = if key_beq (event_key ev) k then ev ∷ [] else []
own_events k _ = []

abbrev pub events_of : AggKey → List Verdict → List Event
events_of k [] = []
events_of k (v ∷ vs) = own_events k v ++ events_of k vs

abbrev pub aggregate : AggKey → Evaluator → State
aggregate k e = state_or_ok (Map.lookup k e.agg)

-- Events that lead from one state to another: each begins where the one before it ended, and changes
-- the state.
abbrev pub Chain : State → List Event → State → Type 0
Chain s [] t = s ≡ t
Chain s (ev ∷ evs) t = (ev.prev ≡ s) × (state_beq ev.prev ev.next ≡ false) × Chain ev.next evs t

pub Chain-append :
    (xs ys : List Event) (s t u : State) → Chain s xs t → Chain t ys u → Chain s (xs ++ ys) u
Chain-append [] ys s t u h k = subst (λ s. Chain s ys u) (sym h) k
Chain-append (x ∷ xs) ys s t u (p, d, h) k = (p, d, Chain-append xs ys x.next t u h k)

abbrev pub Keyed : AggKey → Verdict → Type 0
Keyed k (committed ev) = event_key ev ≡ k
Keyed k _ = Unit

module _ (cfg : Config) (cy : Cycle) (now : ℕ) (e : Evaluator) (name : Str) (a : AlertConfig) where
  abbrev pub key : AggKey
  key = (id cy.target, name)

  -- What a verdict on one alert may touch.
  abbrev pub Local : Evaluator × Verdict → Type 0
  Local r = Keyed key r.1 × ((k : AggKey) → key ≢ k → Map.lookup k r.0.agg ≡ Map.lookup k e.agg)

  conclude-Local :
      (ev : Event) (offered : Queues × Outcome) (done undone : Evaluator)
      → event_key ev ≡ key
      → ((k : AggKey) → key ≢ k → Map.lookup k done.agg ≡ Map.lookup k e.agg)
      → ((k : AggKey) → key ≢ k → Map.lookup k undone.agg ≡ Map.lookup k e.agg)
      → Local (conclude ev offered done undone)
  conclude-Local ev (q, accepted) done undone own d u = (own, d)
  conclude-Local ev (q, refused r) done undone own d u = (tt, u)

  settle_source-Local :
      (sources : Sources) (prev next : State)
      → Local (settle_source cfg cy now e name a sources prev next)
  unfolding settle_source
  settle_source-Local sources prev next = elim (Bool-cases (state_beq prev next)) [
    | inl same ↦ rw same (tt, λ k h. refl)
    | inr other ↦ rw other (conclude-Local _ _ _ _ refl (λ k h. refl) (λ k h. refl))
  ]

  elsewhere :
      (s : State) (k : AggKey)
      → key ≢ k
      → Map.lookup k (Map.insert key s e.agg) ≡ Map.lookup k e.agg
  elsewhere s k h = Map.lookup-insert_ne k key s e.agg h

  settle_quorum-Local : (sources : Sources) → Local (settle_quorum cfg cy now e name a sources)
  unfolding settle_quorum
  settle_quorum-Local sources =
      let prev = state_or_ok (Map.lookup key e.agg) in
      let w = sight cfg cy now (warmup_or_new cfg cy now (Map.lookup key e.warmup)) in
      let next = gate cfg cy now prev (decide a.quorum (tally sources now (window cfg cy now))) w in
      elim (Bool-cases (state_beq prev next)) [
        | inl same ↦ rw same (tt, λ k h. refl)
        | inr other ↦ rw other (conclude-Local _ _ _ _ refl (elsewhere next) (elsewhere prev))
      ]

  pub judge-Local : (cond : Cycle → Bool) → Local (judge cfg cy now e name a cond)
  unfolding judge
  judge-Local cond =
      let st = state_or_new (Map.lookup cy.source (sources_or_new (Map.lookup key e.states))) in
      elim (Bool-cases (admits st cy.time now)) [
        | inl new ↦ rw new (elim (Bool-cases (enabled a.quorum)) [
          | inl on ↦ rw on (settle_quorum-Local _)
          | inr off ↦ rw off (settle_source-Local _ _ _)
        ])
        | inr old ↦ rw old (tt, λ k h. refl)
      ]

  -- The verdict's own event is the step that the aggregate takes, whichever alert is asked about.
  own-Chain :
      (v : Verdict) (q' : Queues) (s t : State) (offer : Event → Queues × Outcome)
      → Keyed key v
      → Agrees offer e.queues q' s t v
      → Chain s (own_events key v) t
  own-Chain (committed ev) q' s t offer own (p, n, d, _) =
      rw ((key_beq_iff (event_key ev) key).1 own) (p, rw (p, n) d, n)
  own-Chain (reverted ev r) q' s t offer own (_, same, _) = sym same
  own-Chain unknown q' s t offer own h = sym h.0
  own-Chain (replayed d) q' s t offer own h = sym h.0
  own-Chain unchanged q' s t offer own h = sym h.0

  pub judge-Chain :
      (cond : Cycle → Bool)
      → enabled a.quorum ≡ true
      → let r = judge cfg cy now e name a cond in
        Chain (aggregate key e) (own_events key r.1) (aggregate key r.0)
  judge-Chain cond on =
      let r = judge cfg cy now e name a cond in
      own-Chain r.1 r.0.queues _ _ _ (judge-Local cond).0
        (rw on at (judge_commits_what_is_queued cfg cy now e name a cond))

  pub other-Chain :
      (r : Evaluator × Verdict) (k : AggKey)
      → key ≢ k
      → Local r
      → Chain (aggregate k e) (own_events k r.1) (aggregate k r.0)
  other-Chain (e', v) k h (own, frame) = rw (none_own v own) (ap state_or_ok (sym (frame k h)))
    where
      none_own : (v : Verdict) → Keyed key v → own_events k v ≡ []
      none_own (committed ev) own = elim (Bool-cases (key_beq (event_key ev) k)) [
        | inl same ↦ absurd (h (sym own ∙ (key_beq_iff (event_key ev) k).0 same))
        | inr other ↦ rw other refl
      ]
      none_own (reverted ev r) own = refl
      none_own unknown own = refl
      none_own (replayed d) own = refl
      none_own unchanged own = refl
