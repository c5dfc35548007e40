-- ===== src/Server/Attribution.antt =====
-- internal/cluster/master/server.go: what handleCycles as a whole delivers, and to whom it attributes it.
use smokeping_go.Common.{
  ◌≡◌, refl, sym, ap, ◌∙◌, ◌⊎◌, inl, inr, Bool, true, false, not, some, List, [], ◌++◌, append-nil,
  arith, if◌then◌else◌, Option-cases, Str, str_eq, Eq, All,
}
use smokeping_go.Common.Map
use smokeping_go.Cycle.{id, Cycle}
use smokeping_go.Config.{valid_slave_name}
use smokeping_go.Registry.{has}
use smokeping_go.Registry.Ceiling.{touch_bounded}
use smokeping_go.Cluster.Validate.{CycleBatch, validate}
use smokeping_go.Server.{
  Server, DecodeError, Reply, Headers, World, Platform, known_targets, settle, take_batch,
  handle_batch, handle_cycles, claimed, name_collides_with_master,
}
use smokeping_go.Server.Ingest.{Attributed, ingest_batch-Progress}
use smokeping_go.Server.Coupling.{Coupled, entered}

module _ {A F : Type 0} ⦃e : Eq A⦄ (platform : Platform A F) (panics : Cycle → Bool) where
  -- The source is a slave of that name, registered before the push, and not the master's own label; the
  -- target is a known one, and the probe is the one that the configuration gives it.
  pub record Genuine (w : World A) (s : Server A) (c : Cycle) : Type 0 where
    pub named : valid_slave_name c.source ≡ true
    pub foreign : name_collides_with_master w.config c.source ≡ false
    pub registered : has s.registry c.source ≡ true
    pub known : Map.lookup (id c.target) (known_targets platform panics w) ≡ some c.target
    pub probed : c.probe_name ≡ c.target.target.probe

  -- What a push did: new deliveries behind the old, and no name more or less.
  pub record Pushed (w : World A) (s s' : Server A) : Type 0 where
    pub new : List Cycle
    pub grows : s'.delivered ≡ s.delivered ++ new
    pub genuine : All (Genuine w s) new
    pub names : (m : Str) → has s'.registry m ≡ has s.registry m

  nothing :
      (w : World A) (s s' : Server A)
      → s'.delivered ≡ s.delivered
      → ((m : Str) → has s'.registry m ≡ has s.registry m)
      → Pushed w s s'
  nothing w s s' same names = record {
    new = [];
    grows = same ∙ sym (append-nil s.delivered);
    genuine = tt;
    names = names;
  }

  -- A slave that is registered checks in without a name coming or going.
  entered-names :
      (w : World A) (s : Server A) (name version remote advertise : Str)
      → Coupled s
      → has s.registry name ≡ true
      → (m : Str)
      → has (entered platform panics w s.registry name version remote advertise) m
        ≡ has s.registry m
  unfolding has
  entered-names w s name version remote advertise c known m =
      elim ((touch_bounded platform.parse_advertise platform.observed w.pins w.now s.registry name
          version remote advertise c.ceiling).1
        m) [
          | inl same ↦ same
          | inr (this, here) ↦ here ∙ sym (ap (λ k. Map.has k s.registry.slaves) (sym this) ∙ known)
        ]

  Genuine-all :
      (w : World A) (s : Server A) (name : Str) (cs : List Cycle)
      → valid_slave_name name ≡ true
      → name_collides_with_master w.config name ≡ false
      → has s.registry name ≡ true
      → All (Attributed (known_targets platform panics w) name) cs
      → All (Genuine w s) cs
  Genuine-all w s name List.[] v f r all = tt
  Genuine-all w s name (List.◌∷◌ c cs) v f r (a, rest) = (
    record {
      named = rw a.sent_by v;
      foreign = rw a.sent_by f;
      registered = rw a.sent_by r;
      known = a.known;
      probed = a.probed;
    },
    Genuine-all w s name cs v f r rest,
  )

  take_batch-Pushed :
      (w : World A) (remote : Str) (h : Headers) (name version : Str) (b : CycleBatch)
      (s : Server A)
      → Coupled s
      → valid_slave_name name ≡ true
      → name_collides_with_master w.config name ≡ false
      → has s.registry name ≡ true
      → Pushed w s (take_batch platform panics w remote h name version b s).1
  unfolding take_batch settle
  take_batch-Pushed w remote h name version b s c v f r =
      let same = entered-names w s name version remote h.advertise c r in
      let s' = record s {
        registry = entered platform panics w s.registry name version remote h.advertise;
      } in
      elim (Option-cases (validate platform.netip w.now b)) [
        | inl valid ↦
            let (new, grows, attributed, _, _) =
              ingest_batch-Progress platform panics w (record b { source = name }) s' in
            rw (valid, take_batch)
              (record {
                new = new;
                grows = grows;
                genuine = Genuine-all w s name new v f r attributed;
                names = same;
              })
        | inr (err, invalid) ↦ rw (invalid, take_batch) (nothing w s s' refl same)
      ]

  -- In a state where the dedup's windows belong to registered slaves, whatever a push holds, its
  -- deliveries stand behind the earlier ones, each is attributed to a slave that was registered
  -- before, to a target that the master knows and to the probe that the configuration gives that
  -- target, and no name is registered or dropped.
  pub handle_cycles-Pushed :
      (w : World A) (remote : Str) (h : Headers) (body : DecodeError ⊎ CycleBatch) (s : Server A)
      → Coupled s
      → Pushed w s (handle_cycles platform panics w remote h body s).1
  unfolding handle_cycles handle_batch
  handle_cycles-Pushed w remote h (inl err) s c = nothing w s s refl (λ m. refl)
  handle_cycles-Pushed w remote h (inr b) s c =
      let (name, version) = claimed h b in
      guarded (not (valid_slave_name name)) _ _ λ v.
        guarded (name_collides_with_master w.config name) _ _ λ f.
          guarded (not (has s.registry name)) _ _ λ r.
            take_batch-Pushed w remote h name version b s c (ground (arith, v)) f
              (ground (arith, r))
    where
      guarded :
          (b : Bool) (r : Reply) (t : Reply × Server A)
          → (b ≡ false → Pushed w s t.1)
          → Pushed w s (if b then (r, s) else t).1
      guarded true r t f = nothing w s s refl (λ m. refl)
      guarded false r t f = f refl
