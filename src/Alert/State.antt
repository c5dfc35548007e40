-- ===== src/Alert/State.antt =====
-- internal/alert/evaluator.go: the state of one (target, alert, source), its replay guard (admits,
-- accept), the steps of its state machine, and the warm-up of a quorum.
use smokeping_go.Common.{
  ℕ, ◌+◌, ◌-◌, Bool, true, false, not, ◌&&◌, ◌||◌, List, [], ◌∷◌, ◌++◌, ltb, leb, nat_beq,
  if◌then◌else◌, length, drop, keep, Str, str_eq,
}
use smokeping_go.Limits.{max_cycles_per_batch}

pub data State : Type 0 where
  ok pending firing : State

abbrev pub state_beq : State → State → Bool
state_beq ok ok = true
state_beq pending pending = true
state_beq firing firing = true
state_beq _ _ = false

pub record AlertState : Type 0 where
  pub state : State
  pub consec_hits : ℕ
  pub last_seen : ℕ
  pub seen_cycle : Bool
  pub last_cycle : ℕ
  pub past_cycle : ℕ
  pub ahead : List ℕ

-- &alertState{state: StateOK}
abbrev pub new_state : AlertState
new_state = record {
  state = ok;
  consec_hits = 0;
  last_seen = 0;
  seen_cycle = false;
  last_cycle = 0;
  past_cycle = 0;
  ahead = [];
}

abbrev pub ahead_ceiling : ℕ
ahead_ceiling = max_cycles_per_batch

unfoldable pub contains : ℕ → List ℕ → Bool
contains t [] = false
contains t (x ∷ xs) = nat_beq x t || contains t xs

unfoldable pub admits : AlertState → ℕ → ℕ → Bool
admits st t now =
    if not st.seen_cycle
    then true
    else if ltb now t
    then ltb st.last_cycle t
    else ltb st.past_cycle t && not (contains t st.ahead)

-- The oldest stamps go once there are more than the ceiling.
unfoldable pub cap_ahead : List ℕ → List ℕ
cap_ahead stamps = drop (length stamps - ahead_ceiling) stamps

unfoldable pub accept : AlertState → ℕ → ℕ → AlertState
unfolding cap_ahead
accept st t now =
    let st' = record st {
      seen_cycle = true;
      last_cycle = if ltb st.last_cycle t then t else st.last_cycle;
    } in
    if ltb now t
    then record st' { ahead = cap_ahead (st.ahead ++ t ∷ []) }
    else record st' { past_cycle = t; ahead = keep (λ v. ltb t v) st.ahead }

-- The `switch` on a triggered cycle, and the reset on one that is not.
unfoldable pub advance : ℕ → Bool → AlertState → AlertState
advance sustained false st = record st { consec_hits = 0; state = ok }
advance sustained true st =
    let hits = st.consec_hits + 1 in
    let reached = leb sustained hits in
    record st {
      consec_hits = hits;
      state = elim st.state [
        | ok ↦ if reached then firing else pending
        | pending ↦ if reached then firing else pending
        | firing ↦ firing
      ];
    }

pub record Warmup : Type 0 where
  pub first_seen : ℕ
  pub sources_seen : List Str

unfoldable pub ready : Warmup → ℕ → ℕ → Bool
ready w now window = leb 2 (length w.sources_seen) || leb window (now - w.first_seen)
