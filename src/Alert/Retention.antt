-- ===== src/Alert/Retention.antt =====
-- What tally and pruneQuietSources do to each source, and why an entry may be dropped.
use smokeping_go.Common.{
  ℕ, ◌≤◌, ◌≡◌, refl, sym, ap, ◌∙◌, inl, inr, true, false, not, Option, none, some, [], ◌∷◌, arith,
  if◌then◌else◌, Bool-cases, Str, str_eq, str_beq, str_beq_iff,
}
use smokeping_go.Common.Map
use smokeping_go.Common.Map.{IsMap}
use smokeping_go.Limits.{max_probe_interval}
use smokeping_go.Cycle.{Cycle}
use smokeping_go.Alert.Window.{
  older, alert_freshness, alert_identity_retention, freshness-le-retention,
}
use smokeping_go.Alert.State.{ok, firing, state_beq, AlertState}
use smokeping_go.Alert.Sources.{Sources, tally, expire, prune_quiet_sources, worth_keeping}
use smokeping_go.Alert.Evaluate.{Config, Evaluator, on_cycle}

-- What is left of a source's state after the tally.
abbrev pub tallied : ℕ → ℕ → Option AlertState → Option AlertState
tallied now window none = none
tallied now window (some st) =
    if not (older window now st.last_seen)
    then some st
    else if older alert_identity_retention now st.last_cycle
    then none
    else some (record st { state = ok; consec_hits = 0 })

has-tally :
    (src : Str) (sources : Sources) (now window : ℕ)
    → Map.has src sources ≡ false
    → Map.lookup src (tally sources now window).sources ≡ none
unfolding tally Map.has Map.lookup expire
has-tally src [] now window h = refl
has-tally src ((j, st) ∷ rest) now window h = ground (arith, has-tally src rest now window)

-- The tally leaves the state of a live source as it is. Of a stale one it drops the state and the hits
-- and keeps the replay guard, and it drops the whole entry only past the retention of identities.
pub tally_lem :
    (src : Str) (sources : Sources) (now window : ℕ)
    → IsMap sources
    → Map.lookup src (tally sources now window).sources
      ≡ tallied now window (Map.lookup src sources)
unfolding tally Map.lookup expire
tally_lem src [] now window h = refl
tally_lem src ((j, st) ∷ rest) now window h = elim (Bool-cases (str_beq j src)) [
  | inl same ↦
      let gone =
        has-tally src rest now window
          ((ap (λ k. Map.has k rest) (sym ((str_beq_iff j src).0 same))) ∙ h.0) in
      rw same (ground arith)
  | inr other ↦ rw other (ground (arith, tally_lem src rest now window h.1))
]

has-prune :
    (src : Str) (sources : Sources) (now window : ℕ)
    → Map.has src sources ≡ false
    → Map.lookup src (prune_quiet_sources sources now window) ≡ none
unfolding prune_quiet_sources Map.retain Map.has Map.lookup
has-prune src [] now window h = refl
has-prune src ((j, st) ∷ rest) now window h = ground (arith, has-prune src rest now window)

abbrev pub pruned : ℕ → ℕ → Option AlertState → Option AlertState
pruned now window none = none
pruned now window (some st) = if worth_keeping now window st then some st else none

pub prune_quiet_sources_lem :
    (src : Str) (sources : Sources) (now window : ℕ)
    → IsMap sources
    → Map.lookup src (prune_quiet_sources sources now window)
      ≡ pruned now window (Map.lookup src sources)
unfolding prune_quiet_sources Map.retain Map.lookup
prune_quiet_sources_lem src [] now window h = refl
prune_quiet_sources_lem src ((j, st) ∷ rest) now window h = elim (Bool-cases (str_beq j src)) [
  | inl same ↦
      let gone =
        has-prune src rest now window
          ((ap (λ k. Map.has k rest) (sym ((str_beq_iff j src).0 same))) ∙ h.0) in
      rw same (ground arith)
  | inr other ↦ rw other (ground (arith, prune_quiet_sources_lem src rest now window h.1))
]

-- A cycle that is no younger than a source's last one, past the retention, is stopped on arrival.
stopped :
    (cfg : Config) (e : Evaluator) (cy : Cycle) (st : AlertState) (now later : ℕ)
    → older alert_identity_retention now st.last_cycle ≡ true
    → cy.time ≤ st.last_cycle
    → now ≤ later
    → cfg.interval ≤ max_probe_interval
    → on_cycle cfg later e cy ≡ (e, [])
unfolding on_cycle
stopped cfg e cy st now later past le le' small = ground (arith, old)
  where
    old : older (alert_freshness cfg.interval) later cy.time ≡ true
    old = ground (arith, freshness-le-retention cfg.interval small)

-- Dropping a source's replay guard re-admits nothing: when tally drops an entry, any cycle whose stamp
-- the entry had reached is ignored from then on, whatever interval the config adopts.
pub tally_forgets_safely :
    (sources : Sources) (src : Str) (st : AlertState) (window now later : ℕ) (cfg : Config)
    (e : Evaluator) (cy : Cycle)
    → IsMap sources
    → Map.lookup src sources ≡ some st
    → Map.lookup src (tally sources now window).sources ≡ none
    → cy.time ≤ st.last_cycle
    → now ≤ later
    → cfg.interval ≤ max_probe_interval
    → on_cycle cfg later e cy ≡ (e, [])
tally_forgets_safely sources src st window now later cfg e cy m found gone le le' small =
    stopped cfg e cy st now later (past _ found (sym (tally_lem src sources now window m) ∙ gone))
      le le' small
  where
    past :
        (o : Option AlertState)
        → o ≡ some st
        → tallied now window o ≡ none
        → older alert_identity_retention now st.last_cycle ≡ true
    past none f g = absurd (ground arith)
    past (some st') f g = ground arith

-- The same of pruneQuietSources, which moreover never drops a source that is firing, nor one that
-- delivered a cycle within the window.
pub prune_forgets_safely :
    (sources : Sources) (src : Str) (st : AlertState) (window now later : ℕ) (cfg : Config)
    (e : Evaluator) (cy : Cycle)
    → IsMap sources
    → Map.lookup src sources ≡ some st
    → Map.lookup src (prune_quiet_sources sources now window) ≡ none
    → cy.time ≤ st.last_cycle
    → now ≤ later
    → cfg.interval ≤ max_probe_interval
    → (on_cycle cfg later e cy ≡ (e, []))
      × (state_beq st.state firing ≡ false)
      × (older window now st.last_seen ≡ true)
prune_forgets_safely sources src st window now later cfg e cy m found gone le le' small =
    let (past, quiet, unseen) =
      dropped _ found (sym (prune_quiet_sources_lem src sources now window m) ∙ gone) in
    (stopped cfg e cy st now later past le le' small, quiet, unseen)
  where
    dropped :
        (o : Option AlertState)
        → o ≡ some st
        → pruned now window o ≡ none
        → (older alert_identity_retention now st.last_cycle ≡ true)
          × (state_beq st.state firing ≡ false)
          × (older window now st.last_seen ≡ true)
    dropped none f g = absurd (ground arith)
    dropped (some st') f g = ground arith
