-- ===== src/Alert/Delivery.antt =====
-- One delivery worker under any sequence of offers, receives and finished deliveries.
use smokeping_go.Common.{
  ℕ, ◌+◌, ◌≤◌, ◌≡◌, refl, sym, inl, inr, not, ◌&&◌, Option, none, some, List, [], ◌∷◌, ◌++◌, arith,
  max, ltb, leb, nat_beq, Bool-cases, length, length-append, append-nil,
}
use smokeping_go.Alert.Queue.{
  QueuedEvent, Shard, empty_shard, Outcome, accepted, refused, offer_shard, receive, finish,
  dispatch_shard_bytes, dispatch_shard_depth,
}

abbrev pub bytes_of : List QueuedEvent → ℕ
bytes_of [] = 0
bytes_of (ev ∷ evs) = ev.bytes + bytes_of evs

abbrev pub largest : List QueuedEvent → ℕ
largest [] = 0
largest (ev ∷ evs) = max ev.bytes (largest evs)

abbrev pub in_flight : Option QueuedEvent → List QueuedEvent
in_flight none = []
in_flight (some ev) = ev ∷ []

-- The event in delivery and those of the channel, oldest first.
abbrev pub held : Shard → List QueuedEvent
held s = in_flight s.delivering ++ s.pending

pub data Step : Type 0 where
  offering : QueuedEvent → Step
  receiving finishing : Step

abbrev pub step : Shard → Step → Shard
step s (offering ev) = (offer_shard s ev).0
step s receiving = receive s
step s finishing = finish s

abbrev pub steps : Shard → List Step → Shard
steps s [] = s
steps s (a ∷ later) = steps (step s a) later

-- The events that a sequence of steps has accepted, and those that it has received, each in order.
abbrev pub is_taken : Outcome → QueuedEvent → List QueuedEvent
is_taken accepted ev = ev ∷ []
is_taken (refused _) ev = []

abbrev pub taken : Shard → List Step → List QueuedEvent
taken s [] = []
taken s (offering ev ∷ later) =
    is_taken (offer_shard s ev).1 ev ++ taken (step s (offering ev)) later
taken s (a ∷ later) = taken (step s a) later

abbrev pub next_up : Shard → List QueuedEvent
next_up s = elim s.delivering [
  | some busy ↦ []
  | none ↦ elim s.pending [ [] ↦ [] | ev ∷ rest ↦ ev ∷ [] ]
]

abbrev pub received : Shard → List Step → List QueuedEvent
received s [] = []
received s (receiving ∷ later) = next_up s ++ received (step s receiving) later
received s (a ∷ later) = received (step s a) later

pub record Sound (s : Shard) : Type 0 where
  pub counted : s.queued_bytes ≡ bytes_of (held s)
  pub depth : length s.pending ≤ dispatch_shard_depth
  pub bounded : s.queued_bytes ≤ max dispatch_shard_bytes (largest (held s))

bytes_of-append : (xs ys : List QueuedEvent) → bytes_of (xs ++ ys) ≡ bytes_of xs + bytes_of ys
bytes_of-append [] ys = omega arith
bytes_of-append (x ∷ xs) ys = omega (arith, bytes_of-append xs ys)

largest-append : (xs ys : List QueuedEvent) → largest (xs ++ ys) ≡ max (largest xs) (largest ys)
largest-append [] ys = ground arith
largest-append (x ∷ xs) ys = ground (arith, largest-append xs ys)

pub offer_shard-Sound : (s : Shard) (ev : QueuedEvent) → Sound s → Sound (offer_shard s ev).0
unfolding offer_shard
offer_shard-Sound s ev h =
    let c = h.counted in
    let d = h.depth in
    let b = h.bounded in
    let busy = in_flight s.delivering in
    elim (Bool-cases (
      ltb dispatch_shard_bytes (s.queued_bytes + ev.bytes)
      && not (nat_beq (s.queued_bytes + ev.bytes) ev.bytes))) [
        | inl over ↦ rw over h
        | inr fits ↦ elim (Bool-cases (leb dispatch_shard_depth (length s.pending))) [
          | inl full ↦ rw (fits, full) h
          | inr free ↦
              rw (fits, free)
                (record {
                  counted = omega (
                    arith,
                    bytes_of-append busy s.pending,
                    bytes_of-append busy (s.pending ++ ev ∷ []),
                    bytes_of-append s.pending (ev ∷ []),
                  );
                  depth = ground (arith, length-append s.pending (ev ∷ []));
                  bounded = ground (
                    arith,
                    largest-append busy (s.pending ++ ev ∷ []),
                    largest-append s.pending (ev ∷ []),
                  );
                })
        ]
      ]

receive-Sound :
    (pending : List QueuedEvent) (d : Option QueuedEvent) (n : ℕ)
    → Sound (record { pending = pending; delivering = d; queued_bytes = n })
    → Sound (receive (record { pending = pending; delivering = d; queued_bytes = n }))
unfolding receive
receive-Sound pending (some busy) n h = h
receive-Sound [] none n h = h
receive-Sound (ev ∷ rest) none n h =
    let d = h.depth in record { counted = h.counted; depth = omega arith; bounded = h.bounded }

finish-Sound :
    (pending : List QueuedEvent) (d : Option QueuedEvent) (n : ℕ)
    → Sound (record { pending = pending; delivering = d; queued_bytes = n })
    → Sound (finish (record { pending = pending; delivering = d; queued_bytes = n }))
unfolding finish
finish-Sound pending none n h = h
finish-Sound pending (some busy) n h =
    let c = h.counted in
    let b = h.bounded in record { counted = omega arith; depth = h.depth; bounded = ground arith }

step-Sound : (s : Shard) (a : Step) → Sound s → Sound (step s a)
step-Sound s (offering ev) h = offer_shard-Sound s ev h
step-Sound s receiving h = receive-Sound s.pending s.delivering s.queued_bytes h
step-Sound s finishing h = finish-Sound s.pending s.delivering s.queued_bytes h

pub steps-Sound : (a : List Step) (s : Shard) → Sound s → Sound (steps s a)
steps-Sound [] s h = h
steps-Sound (a ∷ later) s h = steps-Sound later (step s a) (step-Sound s a h)

pub empty_shard-Sound : Sound empty_shard
empty_shard-Sound = record { counted = refl; depth = omega arith; bounded = omega arith }

-- After any sequence of offers, receives and finished deliveries, a new shard's counter is the bytes
-- of the events that it holds, its channel holds at most 128 of them, and the bytes are at most 8 MiB
-- or at most those of its largest event.
pub shard_bounded : (a : List Step) → Sound (steps empty_shard a)
shard_bounded a = steps-Sound a empty_shard empty_shard-Sound

pub offer_shard-pending :
    (s : Shard) (ev : QueuedEvent)
    → (offer_shard s ev).0.pending ≡ s.pending ++ is_taken (offer_shard s ev).1 ev
unfolding offer_shard
offer_shard-pending s ev =
    elim (Bool-cases (
      ltb dispatch_shard_bytes (s.queued_bytes + ev.bytes)
      && not (nat_beq (s.queued_bytes + ev.bytes) ev.bytes))) [
        | inl over ↦ rw over (sym (append-nil s.pending))
        | inr fits ↦ elim (Bool-cases (leb dispatch_shard_depth (length s.pending))) [
          | inl full ↦ rw (fits, full) (sym (append-nil s.pending))
          | inr free ↦ rw (fits, free) refl
        ]
      ]
