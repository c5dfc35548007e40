-- ===== src/Alert/Replay.antt =====
-- The replay guard: a measurement is applied once.
use mathlib.Core.List.{append_assoc}
use smokeping_go.Common.{
  ℕ, zero, suc, ◌+◌, ◌-◌, ◌≤◌, ◌<◌, ◌≡◌, refl, sym, ap, subst, ◌∙◌, ◌⊎◌, inl, inr, Bool, true,
  false, List, [], ◌∷◌, ◌++◌, arith, ltb, if◌then◌else◌, Bool-cases, length, drop, keep,
  length-append, keep-append, length-keep-le,
}
use smokeping_go.Alert.State.{AlertState, contains, admits, accept, cap_ahead, ahead_ceiling}

-- An arrival: the stamp of a cycle, and the master's clock when it came.
pub record Arrival : Type 0 where
  pub stamp : ℕ
  pub clock : ℕ

-- What evaluate does with an arrival, as far as the guard goes.
abbrev pub arrive : AlertState → Arrival → AlertState
arrive st a = if admits st a.stamp a.clock then accept st a.stamp a.clock else st

abbrev pub arrive_all : AlertState → List Arrival → AlertState
arrive_all st [] = st
arrive_all st (a ∷ later) = arrive_all (arrive st a) later

-- The stamp stands in the list with at most `n` others behind it.
abbrev pub NearEnd : ℕ → ℕ → List ℕ → Type 0
NearEnd t n stamps =
    (before : List ℕ) × (behind : List ℕ) × (stamps ≡ before ++ (t ∷ behind)) × (length behind ≤ n)

-- A stamp that no arrival can be applied for again: the ordering arm bars it, or the exact match does,
-- and then at most `n` stamps stand behind it.
pub record Barred (t n : ℕ) (st : AlertState) : Type 0 where
  pub seen : st.seen_cycle ≡ true
  pub reached : t ≤ st.last_cycle
  pub how : (t ≤ st.past_cycle) ⊎ NearEnd t n st.ahead

contains-NearEnd : (t n : ℕ) (stamps : List ℕ) → NearEnd t n stamps → contains t stamps ≡ true
unfolding contains
contains-NearEnd t n stamps (before, behind, e, _) =
    subst (λ l. contains t l ≡ true) (sym e) (go before)
  where
    go : (before : List ℕ) → contains t (before ++ (t ∷ behind)) ≡ true
    go [] = ground arith
    go (x ∷ xs) = ground (arith, go xs)

-- A barred stamp is refused at every reading of the clock.
pub Barred-refused : (t n now : ℕ) (st : AlertState) → Barred t n st → admits st t now ≡ false
unfolding admits
Barred-refused t n now st b = elim b.how [
  | inl past ↦ let seen = b.seen in let reached = b.reached in ground arith
  | inr near ↦
      let seen = b.seen in
      let reached = b.reached in ground (arith, contains-NearEnd t n st.ahead near)
]

drop-append : (k : ℕ) (xs ys : List ℕ) → k ≤ length xs → drop k (xs ++ ys) ≡ drop k xs ++ ys
drop-append zero xs ys h = refl
drop-append (suc k) [] ys h = elim h [ ]
drop-append (suc k) (x ∷ xs) ys h = drop-append k xs ys (omega arith)

-- The ceiling evicts no stamp that fewer than `ahead_ceiling` others stand behind.
cap-NearEnd :
    (t n : ℕ) (stamps : List ℕ)
    → n < ahead_ceiling
    → NearEnd t n stamps
    → NearEnd t n (cap_ahead stamps)
unfolding cap_ahead
cap-NearEnd t n stamps h (before, behind, e, le) = (
  drop (length stamps - ahead_ceiling) before,
  behind,
  ap (drop (length stamps - ahead_ceiling)) e
      ∙ drop-append (length stamps - ahead_ceiling) before (t ∷ behind)
          (omega (arith, ap length e, length-append before (t ∷ behind))),
  le,
)

append-NearEnd :
    (t n a : ℕ) (stamps : List ℕ) → NearEnd t n stamps → NearEnd t (n + 1) (stamps ++ a ∷ [])
append-NearEnd t n a stamps (before, behind, e, le) = (
  before,
  behind ++ a ∷ [],
  ap (λ l. l ++ a ∷ []) e ∙ append_assoc before (t ∷ behind) (a ∷ []),
  omega (arith, length-append behind (a ∷ [])),
)

keep-NearEnd :
    (t n : ℕ) (p : ℕ → Bool) (stamps : List ℕ)
    → p t ≡ true
    → NearEnd t n stamps
    → NearEnd t n (keep p stamps)
keep-NearEnd t n p stamps h (before, behind, e, le) = (
  keep p before,
  keep p behind,
  ap (keep p) e ∙ keep-append p before (t ∷ behind) ∙ ap (◌++◌ (keep p before)) (kept h),
  omega (arith, length-keep-le p behind),
)
  where
    kept : p t ≡ true → keep p (t ∷ behind) ≡ t ∷ keep p behind
    kept h = rw h

accept-Barred : (st : AlertState) (t now : ℕ) → Barred t 0 (accept st t now)
unfolding accept
accept-Barred st t now = elim (Bool-cases (ltb now t)) [
  | inl early ↦ rw (early) (record {
    seen = refl;
    reached = ground arith;
    how =
        inr (cap-NearEnd t 0 (st.ahead ++ t ∷ []) (omega arith) (st.ahead, [], refl, omega arith));
  })
  | inr due ↦ rw (due) (record { seen = refl; reached = ground arith; how = inl (omega arith) })
]

weaken : (t n : ℕ) (st : AlertState) → Barred t n st → Barred t (n + 1) st
weaken t n st b = record {
  seen = b.seen;
  reached = b.reached;
  how = elim b.how [
    | inl past ↦ inl past
    | inr (before, behind, e, le) ↦ inr (before, behind, e, omega arith)
  ];
}

accept-keeps-Barred :
    (t n : ℕ) (st : AlertState) (a : Arrival)
    → n + 1 < ahead_ceiling
    → Barred t n st
    → admits st a.stamp a.clock ≡ true
    → Barred t (n + 1) (accept st a.stamp a.clock)
unfolding accept admits
accept-keeps-Barred t n st a h b new = elim (Bool-cases (ltb a.clock a.stamp)) [
  | inl early ↦
      let reached = b.reached in
      rw (early) (record {
        seen = refl;
        reached = ground arith;
        how = elim b.how [
          | inl past ↦ inl past
          | inr near ↦ inr (
              cap-NearEnd t (n + 1) (st.ahead ++ a.stamp ∷ []) h
                (append-NearEnd t n a.stamp st.ahead near))
        ];
      })
  | inr due ↦
      let seen = b.seen in
      let reached = b.reached in
      rw (due) (record {
        seen = refl;
        reached = ground arith;
        how = elim b.how [
          | inl past ↦ inl (ground arith)
          | inr near ↦ elim (Bool-cases (ltb a.stamp t)) [
            | inl above ↦ inr (later (keep-NearEnd t n (λ v. ltb a.stamp v) st.ahead above near))
            | inr below ↦ inl (ground arith)
          ]
        ];
      })
]
  where
    later : {stamps : List ℕ} → NearEnd t n stamps → NearEnd t (n + 1) stamps
    later (before, behind, e, le) = (before, behind, e, omega arith)

arrive-Barred :
    (t n : ℕ) (st : AlertState) (a : Arrival)
    → n + 1 < ahead_ceiling
    → Barred t n st
    → Barred t (n + 1) (arrive st a)
arrive-Barred t n st a h b = elim (Bool-cases (admits st a.stamp a.clock)) [
  | inl new ↦ rw new (accept-keeps-Barred t n st a h b new)
  | inr old ↦ rw old (weaken t n st b)
]

arrive_all-Barred :
    (later : List Arrival) (t n : ℕ) (st : AlertState)
    → length later + n < ahead_ceiling
    → Barred t n st
    → Barred t (length later + n) (arrive_all st later)
arrive_all-Barred [] t n st h b = subst (λ m. Barred t m st) (omega arith) b
arrive_all-Barred (a ∷ later) t n st h b =
    subst (λ m. Barred t m (arrive_all (arrive st a) later)) (omega arith)
      (arrive_all-Barred later t (n + 1) (arrive st a) (omega arith)
        (arrive-Barred t n st a (omega arith) b))

-- Once a measurement's stamp has been accepted, its redelivery is refused: at any reading of the
-- clock, and after any arrivals at any readings of the clock, as long as they are fewer than 1024.
pub replay_refused :
    (st : AlertState) (t now : ℕ) (later : List Arrival) (again : ℕ)
    → length later < ahead_ceiling
    → admits (arrive_all (accept st t now) later) t again ≡ false
replay_refused st t now later again h =
    Barred-refused t (length later + 0) again _
      (arrive_all-Barred later t 0 (accept st t now) (omega arith) (accept-Barred st t now))
