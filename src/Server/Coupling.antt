-- ===== src/Server/Coupling.antt =====
-- internal/cluster/master: the registry and the dedup windows together. NewServer couples them: the
-- windows follow the names that the registry holds.
use smokeping_go.Common.{
  ℕ, ◌≤◌, ◌≡◌, subst, ◌∙◌, ◌⊎◌, inl, inr, Bool, true, false, not, List, [], ◌∷◌, ◌++◌,
  if◌then◌else◌, if_elim, Bool-cases, Option-cases, Str, str_eq, Eq, length,
}
use smokeping_go.Common.Map
use smokeping_go.Limits.{max_registered_slaves}
use smokeping_go.Cycle.{TargetRef, id, Cycle}
use smokeping_go.Config.{valid_slave_name}
use smokeping_go.Dedup.{CycleDedup, admit}
use smokeping_go.Dedup.Names.{windowed, admit-windowed, forget-windowed}
use smokeping_go.Registry.{Registry, touch, has}
use smokeping_go.Registry.Ceiling.{touch_bounded}
use smokeping_go.Cluster.{CyclePayload}
use smokeping_go.Cluster.Validate.{CycleBatch, validate}
use smokeping_go.Server.{
  Server, DecodeError, RegisterReq, Ingested, Reply, Headers, World, Platform, deliver, offer,
  ingest_one, ingest_loop, ingest_batch, settle, take_batch, handle_batch, handle_cycles,
  handle_register, claimed, name_collides_with_master,
}

module _ {A : Type 0} ⦃e : Eq A⦄ where
  -- Every window belongs to a slave that is registered, and there are at most 512 of those.
  pub record Coupled (s : Server A) : Type 0 where
    pub ceiling : length s.registry.slaves ≤ max_registered_slaves
    pub owned : (n : Str) → windowed s.dedup n ≡ true → has s.registry n ≡ true

  abbrev Owns : Registry A → CycleDedup → Type 0
  Owns r d = (n : Str) → windowed d n ≡ true → has r n ≡ true

module _ {A F : Type 0} ⦃e : Eq A⦄ (platform : Platform A F) (panics : Cycle → Bool) where
  deliver-Owns :
      (r : Registry A) (c : Cycle) (source key : Str) (nano : ℕ) (i : Ingested)
      → Owns r i.dedup
      → Owns r (deliver platform panics c source key nano i).dedup
  unfolding deliver
  deliver-Owns r c source key nano i h =
      if_elim (λ (j : Ingested). Owns r j.dedup) (panics c) _ _
        (λ n w. h n (forget-windowed i.dedup source key nano n w)) h

  admit-Owns :
      (r : Registry A) (d : CycleDedup) (source key : Str) (nano : ℕ)
      → has r source ≡ true
      → Owns r d
      → Owns r (admit d source key nano).0
  admit-Owns r d source key nano known h n w = elim (admit-windowed d source key nano n w) [
    | inl same ↦ subst (λ m. has r m ≡ true) same known
    | inr old ↦ h n old
  ]

  offer-Owns :
      (r : Registry A) (source : Str) (ref : TargetRef) (p : CyclePayload) (i : Ingested)
      → has r source ≡ true
      → Owns r i.dedup
      → Owns r (offer platform panics source ref p i).dedup
  unfolding offer
  offer-Owns r source ref p i known h =
      let judged = admit-Owns r i.dedup source (id ref) p.time known h in
      if_elim (λ (j : Ingested). Owns r j.dedup) (admit i.dedup source (id ref) p.time).1 _ _
        (deliver-Owns r _ source (id ref) p.time
          (record i { dedup = (admit i.dedup source (id ref) p.time).0 }) judged)
        judged

  module _ (r : Registry A) (targets : List (Str × TargetRef)) (source : Str) where
    ingest_one-Owns :
        (p : CyclePayload) (i : Ingested)
        → has r source ≡ true
        → Owns r i.dedup
        → Owns r (ingest_one platform panics targets source p i).dedup
    unfolding ingest_one
    ingest_one-Owns p i known h =
        elim (Option-cases (Map.lookup (p.group ++ b'/' ∷ p.name) targets)) [
          | inl unknown ↦ rw (unknown, ingest_one) h
          | inr (ref, found) ↦ rw (found, ingest_one) (offer-Owns r source ref p i known h)
        ]

    ingest_loop-Owns :
        (ps : List CyclePayload) (i : Ingested)
        → has r source ≡ true
        → Owns r i.dedup
        → Owns r (ingest_loop platform panics targets source ps i).dedup
    unfolding ingest_loop
    ingest_loop-Owns [] i known h = h
    ingest_loop-Owns (p ∷ ps) i known h =
        if_elim (λ (j : Ingested). Owns r j.dedup) i.panicked _ _ h
          (ingest_loop-Owns ps _ known (ingest_one-Owns p i known h))

  abbrev pub entered : World A → Registry A → Str → Str → Str → Str → Registry A
  entered w r name version remote advertise =
      (touch platform.parse_advertise platform.observed w.pins w.now r name version remote
        advertise).registry

  -- Touch keeps the names, so the windows stay owned.
  pub touch-Coupled :
      (w : World A) (s : Server A) (name version remote advertise : Str)
      → Coupled s
      → Coupled (record s { registry = entered w s.registry name version remote advertise })
  unfolding has
  touch-Coupled w s name version remote advertise c =
      let (bound, names) =
        touch_bounded platform.parse_advertise platform.observed w.pins w.now s.registry name
          version remote advertise c.ceiling in
      record {
        ceiling = bound;
        owned = λ n h. elim (names n) [ inl same ↦ same ∙ c.owned n h | inr (_, here) ↦ here ];
      }

  pub handle_register-Coupled :
      (w : World A) (remote : Str) (body : DecodeError ⊎ RegisterReq) (s : Server A)
      → Coupled s
      → Coupled (handle_register platform panics w remote body s).1
  unfolding handle_register
  handle_register-Coupled w remote (inl err) s c = c
  handle_register-Coupled w remote (inr req) s c =
      if_elim (λ (t : Reply × Server A). Coupled t.1) (not (valid_slave_name req.name)) _ _ c
        (if_elim (λ (t : Reply × Server A). Coupled t.1)
          (name_collides_with_master w.config req.name) _ _ c
          (touch-Coupled w s req.name req.version remote req.advertise c))

  touch-has :
      (w : World A) (s : Server A) (name version remote advertise : Str)
      → Coupled s
      → has s.registry name ≡ true
      → has (entered w s.registry name version remote advertise) name ≡ true
  unfolding has
  touch-has w s name version remote advertise c known =
      elim ((touch_bounded platform.parse_advertise platform.observed w.pins w.now s.registry name
          version remote advertise c.ceiling).1
        name) [ inl same ↦ same ∙ known | inr (_, here) ↦ here ]

  take_batch-Coupled :
      (w : World A) (remote : Str) (h : Headers) (name version : Str) (b : CycleBatch)
      (s : Server A)
      → Coupled s
      → has s.registry name ≡ true
      → Coupled (take_batch platform panics w remote h name version b s).1
  unfolding take_batch settle ingest_batch
  take_batch-Coupled w remote h name version b s c known =
      let c' = touch-Coupled w s name version remote h.advertise c in
      let here = touch-has w s name version remote h.advertise c known in
      elim (Option-cases (validate platform.netip w.now b)) [
        | inl valid ↦
            rw (valid, take_batch)
              (record {
                ceiling = c'.ceiling;
                owned =
                    ingest_loop-Owns (entered w s.registry name version remote h.advertise) _ name
                      b.cycles _ here c'.owned;
              })
        | inr (err, invalid) ↦ rw (invalid, take_batch) c'
      ]

  pub handle_cycles-Coupled :
      (w : World A) (remote : Str) (h : Headers) (body : DecodeError ⊎ CycleBatch) (s : Server A)
      → Coupled s
      → Coupled (handle_cycles platform panics w remote h body s).1
  unfolding handle_cycles handle_batch
  handle_cycles-Coupled w remote h (inl err) s c = c
  handle_cycles-Coupled w remote h (inr b) s c =
      let (name, version) = claimed h b in
      if_elim (λ (t : Reply × Server A). Coupled t.1) (not (valid_slave_name name)) _ _ c
        (if_elim (λ (t : Reply × Server A). Coupled t.1) (name_collides_with_master w.config name) _
          _ c
          (named _ (Bool-cases (has s.registry name))
            λ known. take_batch-Coupled w remote h name version b s c known))
    where
      named :
          {b : Bool} (t : Reply × Server A)
          → (b ≡ true) ⊎ (b ≡ false)
          → (b ≡ true → Coupled t.1)
          → Coupled (if not b then (Reply.unregistered, s) else t).1
      named t (inl known) f = rw known (f known)
      named t (inr unknown) f = rw unknown c
