-- ===== src/SlaveClient/Flushes.antt =====
-- internal/cluster/slave/runner.go: what a flush does to the buffer, for every answer.
use smokeping_go.Common.{
  ℕ, ◌<◌, ◌≤◌, ◌≢◌, ◌↔◌, ◌⊎◌, inl, inr, ap, Bool-cases, ◌≡◌, refl, sym, Bool, true, false, Option,
  none, some, List, [], ◌∷◌, arith, take, drop, subst, Pairwise,
}
use smokeping_go.Cluster.{CyclePayload}
use smokeping_go.PushSink.{PushSink, drain}
use smokeping_go.PushSink.Entries.{entries}
use smokeping_go.PushSink.Store.{Ready, Withheld}
use smokeping_go.PushSink.Drain.{drain-Drained, batch_size}
use smokeping_go.PushSink.Requeue.{Requeued, requeue-Requeued}
use smokeping_go.SlaveClient.{
  Answer, ClientError, auth, unregistered, not_found, redirected, rejected, master_refused, failed,
  classify, settle_push, retryable_4xx, answered, unanswered, ship, flush_once,
}

-- The answers after which the batch is pushed again.
unfoldable pub keeps : Option ClientError → Bool
keeps none = false
keeps (some auth) = false
keeps (some unregistered) = true
keeps (some not_found) = false
keeps (some redirected) = true
keeps (some rejected) = false
keeps (some master_refused) = false
keeps (some failed) = true

-- An answer that describes the moment and not the batch: none at all, a server's error, a redirect, a
-- slave that is not registered, or a client error whose specification lets the request be repeated
-- (407, 408, 421, 425 and 429).
abbrev pub Momentary : Answer → Type 0
Momentary unanswered = Unit
Momentary (answered code marked) =
    (500 ≤ code)
    ⊎ ((300 ≤ code) × (code < 400) × (code ≢ 304))
    ⊎ (code ≡ 403)
    ⊎ (code ≡ 407)
    ⊎ (code ≡ 408)
    ⊎ (code ≡ 421)
    ⊎ (code ≡ 425)
    ⊎ (code ≡ 429)

pub keeps-Momentary : (a : Answer) → (keeps (classify a) ≡ true) ↔ Momentary a
unfolding keeps classify retryable_4xx
keeps-Momentary unanswered = (λ h. tt, λ h. refl)
keeps-Momentary (answered code true) = ground arith
keeps-Momentary (answered code false) = ground arith

-- The batch is back in front, whole and in order, or it is gone and the rest is as it was.
pub data Settled (a : Answer) (q q' : PushSink) (batch : List CyclePayload) : Type 0 where
  kept : Momentary a → Requeued q q' batch → Settled a q q' batch
  gone : (Momentary a → ⊥) → Ready q' → entries q' ≡ entries q → Settled a q q' batch

kept_batch :
    (register : Answer) (err : Option ClientError) (q : PushSink) (e : CyclePayload)
    (es : List CyclePayload)
    → Ready q
    → keeps err ≡ true
    → Requeued q (settle_push register err q (e ∷ es)).sink (e ∷ es)
unfolding settle_push keeps
kept_batch register none q e es r h = absurd (ground (arith, h))
kept_batch register (some auth) q e es r h = absurd (ground (arith, h))
kept_batch register (some unregistered) q e es r h = requeue-Requeued q e es r
kept_batch register (some not_found) q e es r h = absurd (ground (arith, h))
kept_batch register (some redirected) q e es r h = requeue-Requeued q e es r
kept_batch register (some rejected) q e es r h = absurd (ground (arith, h))
kept_batch register (some master_refused) q e es r h = absurd (ground (arith, h))
kept_batch register (some failed) q e es r h = requeue-Requeued q e es r

lost_batch :
    (register : Answer) (err : Option ClientError) (q : PushSink) (e : CyclePayload)
    (es : List CyclePayload)
    → keeps err ≡ false
    → (settle_push register err q (e ∷ es)).sink ≡ q
unfolding settle_push keeps
lost_batch register none q e es h = refl
lost_batch register (some auth) q e es h = refl
lost_batch register (some unregistered) q e es h = absurd (ground (arith, h))
lost_batch register (some not_found) q e es h = refl
lost_batch register (some redirected) q e es h = absurd (ground (arith, h))
lost_batch register (some rejected) q e es h = refl
lost_batch register (some master_refused) q e es h = refl
lost_batch register (some failed) q e es h = absurd (ground (arith, h))

settle_push-Settled :
    (a register : Answer) (q : PushSink) (e : CyclePayload) (es : List CyclePayload)
    → Ready q
    → Settled a q (settle_push register (classify a) q (e ∷ es)).sink (e ∷ es)
settle_push-Settled a register q e es r = elim (Bool-cases (keeps (classify a))) [
  | inl again ↦ kept ((keeps-Momentary a).0 again) (kept_batch register (classify a) q e es r again)
  | inr over ↦
      let same = lost_batch register (classify a) q e es over in
      gone (λ m. let e = (keeps-Momentary a).1 m in ground (arith, e, over))
        (subst Ready (sym same) r) (ap entries same)
]

-- A flush hands the oldest cycles to the push, with a health target's hops withheld where the master has
-- no markers, and leaves a well-formed buffer. After no answer, a 5xx, a redirect, 403, 407, 408, 421, 425
-- or 429 the batch is back in front, whole and in order, and cycles behind it gave way only for want of
-- room; after any other answer the batch is gone and the cycles behind it stay as they were.
pub flush_once-Settled :
    (push : List CyclePayload → Answer) (register : Answer) (limit : ℕ) (p : PushSink)
    (e : CyclePayload) (es : List CyclePayload)
    → Ready p
    → (drain p limit).1 ≡ e ∷ es
    → let (q, batch) = drain p limit in
      let n = batch_size p limit in
      Pairwise (Withheld p.hop_markers) (take n (entries p)) (e ∷ es)
      × (entries q ≡ drop n (entries p))
      × Settled (push (e ∷ es)) q (flush_once push register limit p).sink (e ∷ es)
unfolding flush_once
flush_once-Settled push register limit p e es r drained =
    let d = drain-Drained p limit r in
    (
      subst (Pairwise (Withheld p.hop_markers) (take (batch_size p limit) (entries p))) drained
          d.redacted,
      d.remaining,
      shipped (drain p limit) drained d.ready,
    )
  where
    shipped :
        (o : PushSink × List CyclePayload)
        → o.1 ≡ e ∷ es
        → Ready o.0
        → Settled (push (e ∷ es)) o.0 (ship push register o).sink (e ∷ es)
    shipped (q, []) h ready = absurd (ground (arith, h))
    shipped (q, x ∷ xs) h ready =
        subst (λ b. Settled (push b) q (ship push register (q, x ∷ xs)).sink b) h
          (settle_push-Settled (push (x ∷ xs)) register q x xs ready)
