-- ===== src/Server/Ingest.antt =====
-- internal/cluster/master/inbound.go: whom a delivered cycle is attributed to, what it measures, and how
-- the counts of a batch add up.
use smokeping_go.Common.{
  ℕ, suc, ◌+◌, ◌≤◌, ◌≡◌, refl, sym, ap, subst, ◌∙◌, inl, inr, Bool, some, List, [], ◌∷◌, ◌++◌,
  append-nil, append_assoc, arith, if_elim, Option-cases, Str, str_eq, Eq, length, length-append,
  All, All-append,
}
use smokeping_go.Common.Map
use smokeping_go.Cycle.{TargetRef, id, Cycle}
use smokeping_go.Config.{refs, all_targets}
use smokeping_go.SlaveHealth.Snapshot
use smokeping_go.Dedup.{admit}
use smokeping_go.Cluster.{CyclePayload}
use smokeping_go.Cluster.Validate.{CycleBatch}
use smokeping_go.Cluster.Rebuild.{to_cycle}
use smokeping_go.Server.{
  Server, Ingested, World, Platform, resolve, known_targets, deliver, offer, ingest_one,
  ingest_loop, ingest_batch,
}

-- Every target of the table stands under its id.
abbrev Keyed : List (Str × TargetRef) → Type 0
Keyed targets = (k : Str) (ref : TargetRef) → Map.lookup k targets ≡ some ref → id ref ≡ k

insert-Keyed :
    (t : TargetRef) (targets : List (Str × TargetRef))
    → Keyed targets
    → Keyed (Map.insert (id t) t targets)
insert-Keyed t targets h k ref found = elim (Map.lookup-insert-some k (id t) t ref targets found) [
  | inl (here, same) ↦ ap id (sym same) ∙ here
  | inr (_, there) ↦ h k ref there
]

resolve-Keyed :
    (ts : List TargetRef) (targets : List (Str × TargetRef))
    → Keyed targets
    → Keyed (resolve ts targets)
unfolding resolve
resolve-Keyed [] targets h = h
resolve-Keyed (t ∷ ts) targets h =
    resolve-Keyed ts (Map.insert (id t) t targets) (insert-Keyed t targets h)

no_targets : Keyed []
unfolding Map.lookup
no_targets k ref found = absurd (ground (arith, found))

-- A cycle that the master may take for the source's: stamped with its name, of a known target, and with
-- the probe that the configuration gives the target.
pub record Attributed (targets : List (Str × TargetRef)) (source : Str) (c : Cycle) : Type 0 where
  pub sent_by : c.source ≡ source
  pub known : Map.lookup (id c.target) targets ≡ some c.target
  pub probed : c.probe_name ≡ c.target.target.probe

-- What the ingest of up to n cycles adds.
pub record Progress (targets : List (Str × TargetRef)) (source : Str) (n : ℕ) (i i' : Ingested)
    : Type 0 where
  pub new : List Cycle
  pub grows : i'.delivered ≡ i.delivered ++ new
  pub attributed : All (Attributed targets source) new
  pub accepted : i'.accepted ≡ i.accepted + length new
  pub counted : i'.accepted + i'.duplicates ≤ i.accepted + i.duplicates + n

module _ (targets : List (Str × TargetRef)) (source : Str) where
  idle :
      (n : ℕ) (i i' : Ingested)
      → i'.delivered ≡ i.delivered
      → i'.accepted ≡ i.accepted
      → i'.duplicates ≤ i.duplicates + n
      → Progress targets source n i i'
  idle n i i' same acc dup = record {
    new = [];
    grows = same ∙ sym (append-nil i.delivered);
    attributed = tt;
    accepted = omega (arith, acc);
    counted = omega (arith, acc, dup);
  }

  chain :
      (n m : ℕ) (i j k : Ingested)
      → Progress targets source n i j
      → Progress targets source m j k
      → Progress targets source (n + m) i k
  chain n m i j k p q = record {
    new = p.new ++ q.new;
    grows = q.grows ∙ ap (λ xs. xs ++ q.new) p.grows ∙ append_assoc i.delivered p.new q.new;
    attributed = All-append _ p.new q.new p.attributed q.attributed;
    accepted = omega (arith, p.accepted, q.accepted, length-append p.new q.new);
    counted = omega (arith, p.counted, q.counted);
  }

  module _ {A F : Type 0} ⦃e : Eq A⦄ (platform : Platform A F) (panics : Cycle → Bool) where
    deliver-Progress :
        (c : Cycle) (key : Str) (nano : ℕ) (i : Ingested)
        → Attributed targets source c
        → Progress targets source 1 i (deliver platform panics c source key nano i)
    unfolding deliver
    deliver-Progress c key nano i a =
        if_elim (Progress targets source 1 i) (panics c) _ _ (idle 1 i _ refl refl (omega arith))
          (record {
            new = c ∷ [];
            grows = refl;
            attributed = (a, tt);
            accepted = omega arith;
            counted = omega arith;
          })

    offer-Progress :
        (ref : TargetRef) (p : CyclePayload) (i : Ingested)
        → Map.lookup (id ref) targets ≡ some ref
        → Progress targets source 1 i (offer platform panics source ref p i)
    unfolding offer to_cycle
    offer-Progress ref p i found =
        let judged = record i { dedup = (admit i.dedup source (id ref) p.time).0 } in
        if_elim (Progress targets source 1 i) (admit i.dedup source (id ref) p.time).1 _ _
          (chain 0 1 i judged _ (idle 0 i judged refl refl (omega arith)) (
            deliver-Progress _ (id ref) p.time judged
              (record { sent_by = refl; known = found; probed = refl })))
          (idle 1 i _ refl refl (omega arith))

    ingest_one-Progress :
        (p : CyclePayload) (i : Ingested)
        → Keyed targets
        → Progress targets source 1 i (ingest_one platform panics targets source p i)
    unfolding ingest_one
    ingest_one-Progress p i keyed =
        let key = p.group ++ b'/' ∷ p.name in
        elim (Option-cases (Map.lookup key targets)) [
          | inl unknown ↦ rw (unknown, ingest_one) (idle 1 i i refl refl (omega arith))
          | inr (ref, found) ↦
              let own : Map.lookup (id ref) targets ≡ some ref =
                subst (λ k. Map.lookup k targets ≡ some ref) (sym (keyed key ref found)) found in
              rw (found, ingest_one) (offer-Progress ref p i own)
        ]

    ingest_loop-Progress :
        (ps : List CyclePayload) (i : Ingested)
        → Keyed targets
        → Progress targets source (length ps) i (ingest_loop platform panics targets source ps i)
    unfolding ingest_loop
    ingest_loop-Progress [] i keyed = idle 0 i i refl refl (omega arith)
    ingest_loop-Progress (p ∷ ps) i keyed =
        if_elim (Progress targets source (suc (length ps)) i) i.panicked _ _
          (idle _ i i refl refl (omega arith))
          (let next = ingest_one platform panics targets source p i in
            let e : 1 + length ps ≡ suc (length ps) = omega arith in
            subst
              (λ n.
                Progress targets source n i (ingest_loop platform panics targets source ps next))
              e
              (chain 1 (length ps) i next _ (ingest_one-Progress p i keyed)
                (ingest_loop-Progress ps (ingest_one platform panics targets source p i) keyed)))

module _ {A F : Type 0} ⦃e : Eq A⦄ (platform : Platform A F) (panics : Cycle → Bool) where
  known_targets-Keyed : (w : World A) → Keyed (known_targets platform panics w)
  unfolding known_targets
  known_targets-Keyed w =
      resolve-Keyed (refs (Snapshot.probe platform.addr_string platform.is4 w.health [])) _
        (resolve-Keyed (all_targets w.config) [] no_targets)

  -- What ingestBatch delivers stands behind what was delivered, and every cycle of it has the batch's
  -- source, a known target and the probe that the configuration gives it, whatever the payload says. It
  -- delivers as many cycles as it reports accepted, and reports no more than the batch holds.
  pub ingest_batch-Progress :
      (w : World A) (b : CycleBatch) (s : Server A)
      → let i = ingest_batch platform panics w b s in
        (new : List Cycle) × (i.delivered ≡ s.delivered ++ new)
        × All (Attributed (known_targets platform panics w) b.source) new
        × (i.accepted ≡ length new)
        × (i.accepted + i.duplicates ≤ length b.cycles)
  unfolding ingest_batch
  ingest_batch-Progress w b s =
      let p =
        ingest_loop-Progress (known_targets platform panics w) b.source platform panics b.cycles _
          (known_targets-Keyed w) in
      (p.new, p.grows, p.attributed, omega (arith, p.accepted), omega (arith, p.counted))
