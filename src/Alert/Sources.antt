-- ===== src/Alert/Sources.antt =====
-- internal/alert/evaluator.go: tally, pruneQuietSources and firingSources, over the states that one
-- (target, alert) has by source.
use smokeping_go.Common.{
  ℕ, ◌+◌, Bool, true, false, not, ◌&&◌, ◌||◌, List, [], ◌∷◌, if◌then◌else◌, Str, str_eq, str_beq,
}
use smokeping_go.Common.Map
use smokeping_go.Common.Sort.{sort_by, itself}
use smokeping_go.Alert.Window.{older, alert_identity_retention}
use smokeping_go.Alert.State.{ok, firing, state_beq, AlertState}

abbrev pub Sources : Type 0
Sources = List (Str × AlertState)

-- What tally does to a stale source: `none` is a deletion.
unfoldable pub expire : AlertState → ℕ → AlertState × Bool
expire st now =
    if older alert_identity_retention now st.last_cycle
    then (st, false)
    else (record st { state = ok; consec_hits = 0 }, true)

pub record Tally : Type 0 where
  pub sources : Sources
  pub firing_count : ℕ
  pub live_count : ℕ

unfoldable pub tally : Sources → ℕ → ℕ → Tally
unfolding expire
tally [] now window = record { sources = []; firing_count = 0; live_count = 0 }
tally ((src, st) ∷ rest) now window =
    let t = tally rest now window in
    if older window now st.last_seen
    then (let (st', kept) = expire st now in
        record t { sources = if kept then (src, st') ∷ t.sources else t.sources })
    else record {
      sources = (src, st) ∷ t.sources;
      firing_count = if state_beq st.state firing then t.firing_count + 1 else t.firing_count;
      live_count = t.live_count + 1;
    }

abbrev pub worth_keeping : ℕ → ℕ → AlertState → Bool
worth_keeping now window st =
    if not (older window now st.last_seen)
    then true
    else state_beq st.state firing || not (older alert_identity_retention now st.last_cycle)

unfoldable pub prune_quiet_sources : Sources → ℕ → ℕ → Sources
prune_quiet_sources sources now window = Map.retain (λ src st. worth_keeping now window st) sources

abbrev pub is_firing_now : ℕ → ℕ → Str → AlertState → Bool
is_firing_now now window src st =
    not (str_beq src []) && (state_beq st.state firing && not (older window now st.last_seen))

unfoldable pub firing_names : Sources → ℕ → ℕ → List Str
firing_names [] now window = []
firing_names ((src, st) ∷ rest) now window =
    if is_firing_now now window src st
    then src ∷ firing_names rest now window
    else firing_names rest now window

unfoldable pub firing_sources : Sources → ℕ → ℕ → List Str
unfolding firing_names
firing_sources sources now window = sort_by itself (firing_names sources now window)
