-- ===== src/Alert/Warm.antt =====
-- The warm-up of a quorum alert.
use smokeping_go.Common.{
  ℕ, ◌-◌, ◌≤◌, ◌≡◌, ◌≢◌, ◌⊎◌, sym, inl, inr, Bool, true, false, List, [], ◌∷◌, arith, Bool-cases,
  Str, str_eq, str_beq_iff, In,
}
use smokeping_go.Common.Map
use smokeping_go.Cycle.{Cycle, id}
use smokeping_go.Alert.Key.{AggKey, key_eq}
use smokeping_go.Alert.Window.{staleness_window}
use smokeping_go.Alert.State.{State, firing, Warmup, ready}
use smokeping_go.Alert.Sources.{Sources, Tally}
use smokeping_go.Alert.Queue.{AlertConfig}
use smokeping_go.Alert.Evaluate.{
  Config, Evaluator, Verdict, decide, sight, has_source, warmup_or_new, sources_or_new,
  state_or_new, measured,
}
use smokeping_go.Alert.Chain.{aggregate}

-- No source is twice in the list.
abbrev pub Once : List Str → Type 0
Once [] = Unit
Once (x ∷ xs) = (¬ In x xs) × Once xs

has_source-In : (s : Str) (xs : List Str) → has_source s xs ≡ false → ¬ In s xs
has_source-In s [] h i = i
has_source-In s (x ∷ xs) h (inl here) =
    let e = (str_beq_iff x s).1 (sym here) in ground (arith, h, e)
has_source-In s (x ∷ xs) h (inr there) = has_source-In s xs (ground (arith, h)) there

module _ (cfg : Config) (cy : Cycle) (now : ℕ) (e : Evaluator) (name : Str) (a : AlertConfig) where
  abbrev key : AggKey
  key = (id cy.target, name)

  abbrev warmup_of : Evaluator → Warmup
  warmup_of r = warmup_or_new cfg cy now (Map.lookup key r.warmup)

  pub sight-Once : (w : Warmup) → Once w.sources_seen → Once (sight cfg cy now w).sources_seen
  unfolding sight
  sight-Once w once = elim (Bool-cases (has_source cy.source w.sources_seen)) [
    | inl seen ↦ rw seen once
    | inr new ↦ rw new (has_source-In cy.source w.sources_seen new, once)
  ]

  -- A verdict that makes the aggregate fire has a quorum behind it, of sources that are warm.
  abbrev Warm : Tally → Evaluator × Verdict → Type 0
  Warm t r =
      aggregate key r.0 ≡ firing
      → (decide a.quorum t ≡ firing)
        × (warmup_of r.0 ≡ sight cfg cy now (warmup_of e))
        × (ready (sight cfg cy now (warmup_of e)) now (staleness_window cfg.interval) ≡ true)

  -- The sources that the quorum is asked about: those of the alert, the cycle applied.
  abbrev pub voters : (Cycle → Bool) → Sources
  voters cond =
      let sources = sources_or_new (Map.lookup key e.states) in
      Map.insert cy.source
        (measured cfg cy now a cond (state_or_new (Map.lookup cy.source sources))) sources

  -- Why an aggregate that began to fire may: of different sources that reported since its warm-up
  -- began, there are two, or the warm-up began a staleness window ago.
  pub record Warmed (w w' : Warmup) : Type 0 where
    pub began : w'.first_seen ≡ w.first_seen
    pub reported : (s : Str) → In s w'.sources_seen → (s ≡ cy.source) ⊎ In s w.sources_seen
    pub distinct : Once w'.sources_seen
    pub enough :
        ((x : Str) × (y : Str) × (x ≢ y) × In x w'.sources_seen × In y w'.sources_seen)
        ⊎ (staleness_window cfg.interval ≤ now - w'.first_seen)
