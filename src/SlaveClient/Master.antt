-- ===== src/SlaveClient/Master.antt =====
-- internal/cluster/slave/runner.go against internal/cluster/master/server.go: a flush whose push the
-- modelled master answers. The batch that the master decodes is the one that the slave encoded.
use smokeping_go.Common.{
  ℕ, ◌≡◌, ◌≢◌, refl, inl, inr, Bool, true, false, List, [], ◌∷◌, Bool-cases, Str, str_beq,
  str_beq_iff, Eq,
}
use smokeping_go.Cycle.{Cycle}
use smokeping_go.Config.{valid_slave_name}
use smokeping_go.Registry.{has}
use smokeping_go.Cluster.{CyclePayload}
use smokeping_go.Cluster.Validate.{CycleBatch}
use smokeping_go.PushSink.{PushSink, drain}
use smokeping_go.PushSink.Store.{Ready}
use smokeping_go.PushSink.Requeue.{Requeued}
use smokeping_go.Server.{
  Server, Reply, Headers, World, Platform, claimed, name_collides_with_master, handle_batch,
  handle_cycles,
}
use smokeping_go.SlaveClient.{Answer, answered, unanswered, classify, flush_once}
use smokeping_go.SlaveClient.Flushes.{keeps, keeps-Momentary, kept, gone, flush_once-Settled}

-- The status of each reply and its mark: a handler that panics closes the connection.
abbrev pub answer_of : Reply → Answer
answer_of Reply.registered = answered 200 false
answer_of (Reply.ingested accepted duplicates) = answered 200 false
answer_of Reply.permanent = answered 400 true
answer_of Reply.unregistered = answered 403 false
answer_of Reply.timed_out = answered 408 false
answer_of Reply.body_too_large = answered 413 false
answer_of Reply.collision = answered 503 false
answer_of Reply.full = answered 503 false
answer_of Reply.aborted = unanswered

module _ {A F : Type 0} ⦃e : Eq A⦄ (platform : Platform A F) (panics : Cycle → Bool) where
  -- The master's answer to a batch.
  abbrev pub master_answer : World A → Str → Headers → Server A → Str → List CyclePayload → Answer
  master_answer w remote h s source cycles =
      answer_of
        (handle_cycles platform panics w remote h
          (inr (record { source = source; cycles = cycles })) s).0

  abbrev Kept : Reply → Type 0
  Kept r = keeps (classify (answer_of r)) ≡ true

  handle_batch-Kept :
      (w : World A) (remote : Str) (h : Headers) (name version : Str) (b : CycleBatch)
      (s : Server A)
      → valid_slave_name name ≡ true
      → has s.registry name ≡ false
      → Kept (handle_batch platform panics w remote h name version b s).0
  unfolding handle_batch keeps classify
  handle_batch-Kept w remote h name version b s valid unknown =
      elim (Bool-cases (name_collides_with_master w.config name)) [
        | inl here ↦ rw (valid, here) refl
        | inr away ↦ rw (valid, away, unknown) refl
      ]

  claimed_name :
      (h : Headers) (b : CycleBatch)
      → h.slave_name ≢ []
      → claimed h b ≡ (h.slave_name, h.slave_version)
  claimed_name h b named = elim (Bool-cases (str_beq h.slave_name [])) [
    | inl missing ↦ absurd (named ((str_beq_iff h.slave_name []).0 missing))
    | inr there ↦ rw there refl
  ]

  handle_cycles-Kept :
      (w : World A) (remote : Str) (h : Headers) (s : Server A) (b : CycleBatch)
      → h.slave_name ≢ []
      → valid_slave_name h.slave_name ≡ true
      → has s.registry h.slave_name ≡ false
      → Kept (handle_cycles platform panics w remote h (inr b) s).0
  unfolding handle_cycles
  handle_cycles-Kept w remote h s b named valid unknown =
      rw (claimed_name h b named)
        (handle_batch-Kept w remote h h.slave_name h.slave_version b s valid unknown)

  -- A master that lost its registry loses no cycle: a flush of a well-formed buffer under a valid
  -- name that the master does not know puts the batch, if there is one, back in front of the buffer,
  -- whole and in order, in any state of the master and however it answers the registration that
  -- follows.
  pub lost_registry_keeps_batch :
      (w : World A) (remote : Str) (h : Headers) (s : Server A) (register : Answer) (limit : ℕ)
      (p : PushSink) (first : CyclePayload) (rest : List CyclePayload)
      → Ready p
      → (drain p limit).1 ≡ first ∷ rest
      → h.slave_name ≢ []
      → valid_slave_name h.slave_name ≡ true
      → has s.registry h.slave_name ≡ false
      → Requeued
          (drain p limit).0
          (flush_once (master_answer w remote h s h.slave_name) register limit p).sink
          (first ∷ rest)
  lost_registry_keeps_batch w remote h s register limit p first rest ready drained named valid
        unknown =
      let push = master_answer w remote h s h.slave_name in
      let (_, _, settled) = flush_once-Settled push register limit p first rest ready drained in
      let batch : CycleBatch = record { source = h.slave_name; cycles = first ∷ rest } in
      let moment =
        (keeps-Momentary (push (first ∷ rest))).0
          (handle_cycles-Kept w remote h s batch named valid unknown) in
      elim settled [ kept _ back ↦ back | gone otherwise _ _ ↦ absurd (otherwise moment) ]
