-- ===== src/Alert/Sustained.antt =====
-- The state machine against a description of it by the cycles alone.
use smokeping_go.Common.{
  ℕ, zero, suc, ◌≡◌, refl, Bool, true, false, List, [], ◌∷◌, arith, leb, if◌then◌else◌,
}
use smokeping_go.Alert.State.{State, ok, pending, firing, AlertState, new_state, advance}

-- The run of triggered cycles that ends a history, newest first.
abbrev pub streak : List Bool → ℕ
streak [] = 0
streak (true ∷ earlier) = suc (streak earlier)
streak (false ∷ earlier) = 0

-- The state that a streak of hits stands for.
abbrev pub classify : ℕ → ℕ → State
classify sustained zero = ok
classify sustained (suc n) = if leb sustained (suc n) then firing else pending

-- The state after a history of evaluated cycles, newest first.
abbrev pub after : ℕ → List Bool → AlertState
after sustained [] = new_state
after sustained (hit ∷ earlier) = advance sustained hit (after sustained earlier)

-- After any history, the count of hits is the length of the streak that ends it, and the source is
-- firing exactly from `sustained` hits on, pending below that, and ok without a hit.
pub advance-classify :
    (sustained : ℕ) (history : List Bool)
    → ((after sustained history).consec_hits ≡ streak history)
      × ((after sustained history).state ≡ classify sustained (streak history))
unfolding advance
advance-classify sustained [] = (refl, refl)
advance-classify sustained (true ∷ earlier) =
    let (hits, state) = advance-classify sustained earlier in
    step (after sustained earlier) (streak earlier) hits state
  where
    step :
        (st : AlertState) (n : ℕ)
        → st.consec_hits ≡ n
        → st.state ≡ classify sustained n
        → ((advance sustained true st).consec_hits ≡ suc n)
          × ((advance sustained true st).state ≡ classify sustained (suc n))
    step st zero h k = ground arith
    step st (suc n) h k = ground arith
advance-classify sustained (false ∷ earlier) = (refl, refl)
