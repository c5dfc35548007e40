-- ===== src/Config/Mesh.antt =====
-- internal/slavehealth/slavehealth.go: what the targets that Probe gives are, one by one.
use smokeping_go.Common.{
  ◌≡◌, ◌≢◌, refl, inl, inr, Bool-cases, Option, none, some, List, [], ◌∷◌, arith, map, Str, str_eq,
  str_beq, str_beq_iff, All, All-append, In, Bool, if◌then◌else◌,
}
use smokeping_go.Cycle.{Target, TargetRef}
use smokeping_go.SlaveHealth.{health_group}
use smokeping_go.SlaveHealth.Snapshot.{
  Peer, Snapshot, probe_targets, probe_target, probe, one_group,
}
use smokeping_go.Config.{refs, refs_of}

abbrev pub peers_of : {A : Type 0} → Option (Snapshot A) → List (Peer A)
peers_of none = []
peers_of (some s) = s.peers

-- A mesh target is in the reserved group, and has the name of a peer but not the excluded one.
abbrev pub OfMesh : {A : Type 0} → Str → List (Peer A) → TargetRef → Type 0
OfMesh exclude peers r =
    (r.group ≡ health_group)
    × (r.target.name ≢ exclude)
    × In r.target.name (map (λ p. p.name) peers)

later :
    {A : Type 0} (exclude : Str) (p : Peer A) (ps : List (Peer A)) (rs : List TargetRef)
    → All (OfMesh exclude ps) rs
    → All (OfMesh exclude (p ∷ ps)) rs
later exclude p ps [] h = tt
later exclude p ps (r ∷ rs) ((g, n, i), h) = ((g, n, inr i), later exclude p ps rs h)

module _ {A : Type 0} (addr_string : Option A → Str) (is4 : A → Bool) (exclude : Str) where
  probe_targets-OfMesh :
      (alerts : List Str) (ps : List (Peer A))
      → All
          (OfMesh exclude ps)
          (refs_of health_group (probe_targets addr_string is4 alerts exclude ps))
  unfolding probe_targets
  probe_targets-OfMesh alerts [] = tt
  probe_targets-OfMesh alerts (p ∷ ps) = with_address p.addr (probe_targets-OfMesh alerts ps)
    where
      with_address :
          (addr : Option A)
          → All
              (OfMesh exclude ps)
              (refs_of health_group (probe_targets addr_string is4 alerts exclude ps))
          → All (OfMesh exclude (p ∷ ps)) (
              refs_of health_group (elim addr [
                | none ↦ probe_targets addr_string is4 alerts exclude ps
                | some a ↦
                    if str_beq p.name exclude
                    then probe_targets addr_string is4 alerts exclude ps
                    else probe_target addr_string is4 alerts p.name a
                      ∷ probe_targets addr_string is4 alerts exclude ps
              ]))
      with_address none rest = later exclude p ps _ rest
      with_address (some a) rest = elim (Bool-cases (str_beq p.name exclude)) [
        | inl self ↦ rw self (later exclude p ps _ rest)
        | inr other ↦ rw other (
          (
            refl,
            λ e. let h = (str_beq_iff p.name exclude).1 e in absurd (ground (arith, h, other)),
            inl refl,
          ),
          later exclude p ps _ rest,
        )
      ]

  one_group-OfMesh :
      (ps : List (Peer A)) (ts : List Target)
      → All (OfMesh exclude ps) (refs_of health_group ts)
      → All (OfMesh exclude ps) (refs (one_group ts))
  unfolding refs
  one_group-OfMesh ps [] h = tt
  one_group-OfMesh ps (t ∷ ts) h =
      All-append (OfMesh exclude ps) (refs_of health_group (t ∷ ts)) [] h tt

  pub probe-OfMesh :
      (health : Option (Snapshot A))
      → All (OfMesh exclude (peers_of health)) (refs (probe addr_string is4 health exclude))
  unfolding probe refs
  probe-OfMesh none = tt
  probe-OfMesh (some s) = one_group-OfMesh s.peers _ (probe_targets-OfMesh s.alerts s.peers)
