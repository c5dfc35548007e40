-- ===== src/SlaveHealth/Views.antt =====
-- The public view of the health peers against the one that is probed.
use smokeping_go.Common.{
  ◌≡◌, refl, sym, ap, ◌∙◌, Bool, false, Option, some, List, [], ◌∷◌, ◌++◌, map, Option-cases, inl,
  inr, Str, str_beq, All,
}
use smokeping_go.Cycle.{Target, TargetRef}
use smokeping_go.SlaveHealth.{health_group}
use smokeping_go.SlaveHealth.Snapshot.{
  Peer, Snapshot, Group, probe_targets, one_group, probe, public_ref, public_refs, public,
}

-- What a target shows once its addresses are left out.
abbrev pub without_address : Target → Target
without_address t = record t { host = []; url = []; family = [] }

abbrev pub stripped : Target → TargetRef
stripped t = record { group = health_group; target = without_address t }

abbrev pub targets_of : List Group → List TargetRef
targets_of [] = []
targets_of (g ∷ gs) = map (λ t. record { group = g.group; target = t }) g.targets ++ targets_of gs

-- The reference as the public view has it.
abbrev pub hidden : TargetRef → TargetRef
hidden r = record r { target = without_address r.target }

module _ {A : Type 0} (addr_string : Option A → Str) (is4 : A → Bool) where
  hidden_group : (ts : List Target) → map hidden (targets_of (one_group ts)) ≡ map stripped ts
  hidden_group [] = refl
  hidden_group (t ∷ ts) = ap (λ l. stripped t ∷ l) (go ts)
    where
      go :
          (ts : List Target)
          → map hidden (map (λ t. record { group = health_group; target = t }) ts ++ [])
            ≡ map stripped ts
      go [] = refl
      go (t ∷ ts) = ap (λ l. stripped t ∷ l) (go ts)

  public_refs-targets :
      (alerts : List Str) (ps : List (Peer A))
      → All (λ p. str_beq p.name [] ≡ false) ps
      → public_refs addr_string is4 alerts ps
        ≡ map stripped (probe_targets addr_string is4 alerts [] ps)
  unfolding public_refs probe_targets
  public_refs-targets alerts [] h = refl
  public_refs-targets alerts (p ∷ ps) h = elim (Option-cases p.addr) [
    | inl missing ↦ rw missing (public_refs-targets alerts ps h.1)
    | inr (a, found) ↦
        rw (found, h.0) (ap (λ l. public_ref alerts p.name ∷ l) (public_refs-targets alerts ps h.1))
  ]

  -- The public view is the probed one with the addresses left out: the same peers in the same order,
  -- with the same names, titles, probe and alerts, for peers that have names.
  pub public_is_hidden_probe :
      (s : Snapshot A)
      → All (λ p. str_beq p.name [] ≡ false) s.peers
      → public addr_string is4 (some s)
        ≡ map hidden (targets_of (probe addr_string is4 (some s) []))
  unfolding public probe
  public_is_hidden_probe s h =
      public_refs-targets s.alerts s.peers h
      ∙ sym (hidden_group (probe_targets addr_string is4 s.alerts [] s.peers))
