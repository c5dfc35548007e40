-- ===== src/Server.antt =====
-- internal/cluster/master/server.go and inbound.go: what the master does with a slave's requests. The
-- JSON decoder and the clock are arguments: a body is what decoding it gave, `now` what time.Now
-- returns. The sink is the list of the cycles that it took; a sink that panics is the function
-- `panics`, and net/http's recover ends the request.
pub mod Refusals
pub mod Ingest
pub mod Coupling
pub mod Leaving
pub mod Runs
pub mod Attribution
pub mod Serving
pub mod Schedules
pub mod Examples
use smokeping_go.Common.{
  ℕ, suc, ◌+◌, Bool, true, false, not, ◌&&◌, ◌||◌, Option, none, some, List, [], ◌∷◌, ◌++◌, ltb,
  if◌then◌else◌, Str, bytes, str_eq, str_beq, Eq, ◌==◌, ◌⊎◌, inl, inr,
}
use smokeping_go.Common.Map
use smokeping_go.Cycle.{Target, TargetRef, id, Cycle}
use smokeping_go.Config.{Config, valid_slave_name, all_targets, refs}
use smokeping_go.SlaveHealth.Snapshot
use smokeping_go.SlaveHealth.Snapshot.{Group}
use smokeping_go.Dedup.{CycleDedup, new_dedup, admit, forget, forget_source}
use smokeping_go.Registry.{Registry, TouchError, new_registry, touch, has, sweep}
use smokeping_go.Stats.{Float64}
use smokeping_go.Cluster.{CyclePayload}
use smokeping_go.Cluster.Address.{Netip}
use smokeping_go.Cluster.Validate.{CycleBatch, validate}
use smokeping_go.Cluster.Rebuild.{to_cycle}

pub record Server (A : Type 0) : Type 0 where
  pub registry : Registry A
  pub dedup : CycleDedup
  pub delivered : List Cycle

-- What json.Decoder reports of a body that it does not decode.
pub data DecodeError : Type 0 where
  too_large : DecodeError  -- *http.MaxBytesError
  malformed : DecodeError  -- *json.SyntaxError or *json.UnmarshalTypeError
  unread : DecodeError  -- any other error

pub record RegisterReq : Type 0 where
  pub name : Str
  pub version : Str
  pub advertise : Str

-- A response, by its status; `permanent` is 400 with HeaderRefusal.
pub data Reply : Type 0 where
  registered : Reply  -- 200
  ingested : ℕ → ℕ → Reply  -- 200, accepted and duplicate
  permanent : Reply  -- 400
  unregistered : Reply  -- 403
  timed_out : Reply  -- 408
  body_too_large : Reply  -- 413
  collision : Reply  -- 503
  full : Reply  -- 503
  aborted : Reply  -- the handler panicked

pub record Headers : Type 0 where
  pub slave_name : Str
  pub slave_version : Str
  pub advertise : Str

-- nameCollidesWithMaster
unfoldable pub name_collides_with_master : Config → Str → Bool
name_collides_with_master cfg name = elim cfg.cluster [
  | none ↦ false
  | some cl ↦ not (str_beq cl.source []) && str_beq name cl.source
]

unfoldable pub refuse_decode : DecodeError → Reply
refuse_decode too_large = body_too_large
refuse_decode malformed = permanent
refuse_decode unread = timed_out

-- The answer to a slave that Touch refused.
unfoldable pub touch_reply : Option TouchError → Reply
touch_reply none = registered
touch_reply (some TouchError.registry_full) = full
touch_reply (some _) = permanent

-- The claimed identity: the header's, or the batch's where the header is missing.
abbrev pub claimed : Headers → CycleBatch → Str × Str
claimed h b = if str_beq h.slave_name [] then (b.source, []) else (h.slave_name, h.slave_version)

-- The registry's sweep, whose callback drops the window of a slave that is gone.
unfoldable pub forget_all : List Str → CycleDedup → CycleDedup
forget_all [] d = d
forget_all (name ∷ rest) d = forget_all rest (forget_source d name)

-- Both kinds of target under their ids: a later one takes the place of an earlier.
unfoldable pub resolve : List TargetRef → List (Str × TargetRef) → List (Str × TargetRef)
unfolding id
resolve [] targets = targets
resolve (t ∷ ts) targets = resolve ts (Map.insert (id t) t targets)

pub record Ingested : Type 0 where
  pub dedup : CycleDedup
  pub delivered : List Cycle
  pub accepted : ℕ
  pub duplicates : ℕ
  pub panicked : Bool

-- What a request finds outside of the server: the current configuration, the mesh, the pins and the
-- clock.
pub record World (A : Type 0) : Type 0 where
  pub config : Config
  pub health : Option (Snapshot.Snapshot A)
  pub pins : List (Str × A)
  pub now : ℕ

-- What the handlers take from net/netip and of float64; the advertised address is ParseAdvertise's and
-- the observed one that of the request's remote address.
pub record Platform (A F : Type 0) : Type 0 where
  pub netip : Netip A
  pub float : Float64 F
  pub half : F
  pub ratios : List F
  pub addr_string : Option A → Str
  pub is4 : A → Bool
  pub parse_advertise : Str → Option A
  pub observed : Str → Option A

module _ {A F : Type 0} ⦃e : Eq A⦄ (platform : Platform A F) (panics : Cycle → Bool) where
  abbrev pub new_server : Server A
  new_server = record { registry = new_registry; dedup = new_dedup; delivered = [] }

  -- The targets that a cycle may name.
  unfoldable pub known_targets : World A → List (Str × TargetRef)
  unfolding resolve all_targets refs Snapshot.probe
  known_targets w =
      resolve (refs (Snapshot.probe platform.addr_string platform.is4 w.health []))
        (resolve (all_targets w.config) [])

  -- The payload as the master stamps it.
  abbrev pub stamp : Str → TargetRef → CyclePayload → CyclePayload
  stamp source ref p = record p { source = source; probe_name = ref.target.probe }

  -- The fanout took the cycle, or its slot in the window is released.
  unfoldable pub deliver : Cycle → Str → Str → ℕ → Ingested → Ingested
  deliver cycle source key nano i =
      if panics cycle
      then record i { dedup = forget i.dedup source key nano; panicked = true }
      else record i { delivered = i.delivered ++ cycle ∷ []; accepted = suc i.accepted }

  -- One cycle whose target is known.
  unfoldable pub offer : Str → TargetRef → CyclePayload → Ingested → Ingested
  unfolding to_cycle deliver
  offer source ref p i =
      let (dedup, fresh) = admit i.dedup source (id ref) p.time in
      let i' = record i { dedup = dedup } in
      if fresh
      then deliver
          (to_cycle platform.netip platform.float platform.half platform.ratios (stamp source ref p)
            ref)
          source (id ref) p.time i'
      else record i' { duplicates = suc i.duplicates }

  unfoldable pub ingest_one : List (Str × TargetRef) → Str → CyclePayload → Ingested → Ingested
  unfolding offer
  ingest_one targets source p i = elim (Map.lookup (p.group ++ b'/' ∷ p.name) targets) [
    | none ↦ i
    | some ref ↦ offer source ref p i
  ]

  unfoldable pub ingest_loop :
      List (Str × TargetRef) → Str → List CyclePayload → Ingested → Ingested
  unfolding ingest_one
  ingest_loop targets source [] i = i
  ingest_loop targets source (p ∷ ps) i =
      if i.panicked then i else ingest_loop targets source ps (ingest_one targets source p i)

  -- ingestBatch; the window's `registered` is the registry's Has.
  unfoldable pub ingest_batch : World A → CycleBatch → Server A → Ingested
  unfolding ingest_loop known_targets has
  ingest_batch w b s = ingest_loop (known_targets w) b.source b.cycles (record {
    dedup = record (s.dedup) { registered = some (has s.registry) };
    delivered = s.delivered;
    accepted = 0;
    duplicates = 0;
    panicked = false;
  })

  unfoldable pub handle_register :
      World A → Str → DecodeError ⊎ RegisterReq → Server A → Reply × Server A
  unfolding touch_reply touch refuse_decode name_collides_with_master valid_slave_name
  handle_register w remote (inr req) s =
      if not (valid_slave_name req.name)
      then (permanent, s)
      else if name_collides_with_master w.config req.name
      then (collision, s)
      else (let t =
            touch platform.parse_advertise platform.observed w.pins w.now s.registry req.name
              req.version remote req.advertise in
          (touch_reply t.error, record s { registry = t.registry }))
  handle_register w remote (inl err) s = (refuse_decode err, s)

  unfoldable pub settle : Server A → Ingested → Reply × Server A
  settle s i = (
    (if i.panicked then aborted else ingested i.accepted i.duplicates),
    record s { dedup = i.dedup; delivered = i.delivered },
  )

  -- handleCycles from the check-in of a registered slave on.
  unfoldable pub take_batch :
      World A → Str → Headers → Str → Str → CycleBatch → Server A → Reply × Server A
  unfolding touch validate ingest_batch settle
  take_batch w remote h name version b s =
      let t =
        touch platform.parse_advertise platform.observed w.pins w.now s.registry name version remote
          h.advertise in
      let s' = record s { registry = t.registry } in
      elim (validate platform.netip w.now b) [
        | some invalid ↦ (permanent, s')
        | none ↦ settle s' (ingest_batch w (record b { source = name }) s')
      ]

  unfoldable pub handle_batch :
      World A → Str → Headers → Str → Str → CycleBatch → Server A → Reply × Server A
  unfolding take_batch name_collides_with_master valid_slave_name has
  handle_batch w remote h name version b s =
      if not (valid_slave_name name)
      then (permanent, s)
      else if name_collides_with_master w.config name
      then (collision, s)
      else if not (has s.registry name)
      then (unregistered, s)
      else take_batch w remote h name version b s

  unfoldable pub handle_cycles :
      World A → Str → Headers → DecodeError ⊎ CycleBatch → Server A → Reply × Server A
  unfolding handle_batch refuse_decode
  handle_cycles w remote h (inr b) s =
      let (name, version) = claimed h b in handle_batch w remote h name version b s
  handle_cycles w remote h (inl err) s = (refuse_decode err, s)

module _ {A : Type 0} ⦃e : Eq A⦄ where
  unfoldable pub sweep_slaves : ℕ → ℕ → Server A → Server A
  unfolding sweep forget_all has
  sweep_slaves now age s =
      let swept = sweep now age s.registry in
      record s {
        registry = swept.registry;
        dedup =
            forget_all swept.removed (record (s.dedup) { registered = some (has swept.registry) });
      }
