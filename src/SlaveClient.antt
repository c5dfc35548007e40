-- ===== src/SlaveClient.antt =====
-- internal/cluster/slave/client.go and runner.go: what a slave makes of the master's answers, and a flush
-- of its buffer. How a request was answered is an argument; a request without an answer is one that the
-- transport failed.
pub mod Flushes
pub mod Master
pub mod Examples
use smokeping_go.Common.{
  ℕ, Bool, true, false, not, ◌&&◌, ◌||◌, Option, none, some, List, [], ◌∷◌, arith, if◌then◌else◌,
  ltb, leb, nat_beq, length, ◌*◌,
}
use smokeping_go.Cluster.{CyclePayload}
use smokeping_go.PushSink.{PushSink, drain, requeue}

-- A status, with the master's mark of a permanent refusal.
pub data Answer : Type 0 where
  unanswered : Answer
  answered : ℕ → Bool → Answer

pub data ClientError : Type 0 where
  auth : ClientError
  unregistered : ClientError
  not_found : ClientError
  redirected : ClientError
  rejected : ClientError
  master_refused : ClientError
  failed : ClientError

unfoldable pub retryable_4xx : ℕ → Bool
retryable_4xx code =
    nat_beq code 407 || nat_beq code 408 || nat_beq code 421 || nat_beq code 425 || nat_beq code 429

abbrev pub refusal : Bool → ClientError
refusal true = master_refused
refusal false = rejected

-- The error that Client.do makes of an answer.
unfoldable pub classify : Answer → Option ClientError
unfolding retryable_4xx
classify unanswered = some failed
classify (answered code marked) =
    if nat_beq code 401
    then some auth
    else if nat_beq code 403
    then some unregistered
    else if nat_beq code 404
    then some not_found
    else if leb 300 code && ltb code 400 && not (nat_beq code 304)
    then some redirected
    else if leb 400 code
    then some (if ltb code 500 && not (retryable_4xx code) then refusal marked else failed)
    else none

pub record Flushed : Type 0 where
  pub pushed : ℕ
  pub error : Option ClientError
  pub sink : PushSink

-- What ends the process of a slave that registers.
unfoldable pub fatal : Option ClientError → Option ClientError
fatal (some auth) = some auth
fatal (some master_refused) = some master_refused
fatal (some unregistered) = none
fatal (some not_found) = none
fatal (some redirected) = none
fatal (some rejected) = none
fatal (some failed) = none
fatal none = none

abbrev pub keep_batch : Option ClientError → PushSink → List CyclePayload → Flushed
keep_batch error q batch = record { pushed = 0; error = error; sink = (requeue q batch).0 }

-- What a flush does with the batch that it drained; `register` is the answer to a registration.
unfoldable pub settle_push : Answer → Option ClientError → PushSink → List CyclePayload → Flushed
unfolding requeue classify fatal
settle_push register none q batch = record { pushed = length batch; error = none; sink = q }
settle_push register (some auth) q batch = record { pushed = 0; error = some auth; sink = q }
settle_push register (some not_found) q batch = record { pushed = 0; error = none; sink = q }
settle_push register (some rejected) q batch = record { pushed = 0; error = none; sink = q }
settle_push register (some master_refused) q batch = record { pushed = 0; error = none; sink = q }
settle_push register (some redirected) q batch = keep_batch none q batch
settle_push register (some unregistered) q batch = keep_batch (fatal (classify register)) q batch
settle_push register (some failed) q batch = keep_batch none q batch

abbrev pub ship : (List CyclePayload → Answer) → Answer → PushSink × List CyclePayload → Flushed
ship push register (q, []) = record { pushed = 0; error = none; sink = q }
ship push register (q, e ∷ es) = settle_push register (classify (push (e ∷ es))) q (e ∷ es)

unfoldable pub flush_once : (List CyclePayload → Answer) → Answer → ℕ → PushSink → Flushed
unfolding drain settle_push classify
flush_once push register limit p = ship push register (drain p limit)

-- Register's backoff, doubled up to 30 seconds.
unfoldable pub next_backoff : ℕ → ℕ
next_backoff b = if ltb 30000000000 (b * 2) then 30000000000 else b * 2

-- registerForever and pullConfigInitial over the answers that come in: the error that ends them, or none
-- after the first success, and the waits before it. Without an end within the answers they still try.
pub data Tried : Type 0 where
  done : Option ClientError → List ℕ → Tried
  trying : List ℕ → Tried

abbrev pub after_wait : ℕ → Tried → Tried
after_wait b (done err waits) = done err (b ∷ waits)
after_wait b (trying waits) = trying (b ∷ waits)

unfoldable pub retry_until : ℕ → List Answer → Tried
unfolding classify fatal next_backoff
retry_until b [] = trying []
retry_until b (a ∷ answers) =
    let later = after_wait b (retry_until (next_backoff b) answers) in
    elim (classify a) [
      | none ↦ done none []
      | some err ↦ elim (fatal (some err)) [ none ↦ later | some end ↦ done (some end) [] ]
    ]
