-- ===== src/Registry/Sweeping.antt =====
-- Sweep keeps the ownership of addresses, and removes exactly the slaves that are gone.
use smokeping_go.Common.{
  if_elim, ℕ, ◌≡◌, refl, ap, ◌∙◌, false, some, List, [], ◌∷◌, arith, Str, str_eq, str_beq_iff, Eq,
  ==_refl, All,
}
use smokeping_go.Common.Map
use smokeping_go.Common.Map.{IsMap}
use smokeping_go.Registry.{SlaveInfo, Registry, Swept, is_gone, sweep_one, sweep_loop, sweep}
use smokeping_go.Registry.Ownership.{advertised, Owned}
use smokeping_go.Registry.CheckIn.{Fact-ext, drop_owned-Fact}

module _ {A : Type 0} ⦃e : Eq A⦄ where
  abbrev Holds : Registry A → List (Str × SlaveInfo A) → Type 0
  Holds r entries = All (λ p. Map.lookup p.0 r.slaves ≡ some p.1) entries

  sweep_one-Owned :
      (name : Str) (info : SlaveInfo A) (s : Swept A)
      → Map.lookup name s.registry.slaves ≡ some info
      → Owned s.registry
      → Owned (sweep_one name info s).registry
  unfolding sweep_one
  sweep_one-Owned name info s found h =
      Fact-ext _ _ _ _ (drop_owned-Fact s.registry name info.advertise h (ap advertised found))
        (λ b. refl) (λ m. ground (arith, Map.lookup-delete m name s.registry.slaves))

  delete-Holds :
      (name : Str) (entries : List (Str × SlaveInfo A)) (r r' : Registry A)
      → r'.slaves ≡ Map.delete name r.slaves
      → Map.has name entries ≡ false
      → Holds r entries
      → Holds r' entries
  unfolding Map.has
  delete-Holds name [] r r' p new h = tt
  delete-Holds name ((n, info) ∷ rest) r r' p new h = (
    ap (Map.lookup n) p
        ∙ ground
            (arith, Map.lookup-delete n name r.slaves, str_beq_iff name n, str_beq_iff n name, h.0),
    delete-Holds name rest r r' p (ground arith) h.1,
  )

  sweep_loop-Owned :
      (now age : ℕ) (entries : List (Str × SlaveInfo A)) (s : Swept A)
      → IsMap entries
      → Holds s.registry entries
      → Owned s.registry
      → Owned (sweep_loop now age entries s).registry
  unfolding sweep_loop sweep_one
  sweep_loop-Owned now age [] s m held h = h
  sweep_loop-Owned now age ((name, info) ∷ rest) s m held h =
      let (held', owned) =
        if_elim (λ t. Holds t.registry rest × Owned t.registry) (is_gone now age info)
          (sweep_one name info s) s
          (
            delete-Holds name rest s.registry (sweep_one name info s).registry refl m.0 held.1,
            sweep_one-Owned name info s held.0 h,
          )
          (held.1, h) in
      sweep_loop-Owned now age rest _ m.1 held' owned

  cons-own :
      (name : Str) (info : SlaveInfo A) (slaves entries : List (Str × SlaveInfo A))
      → Map.has name entries ≡ false
      → All (λ p. Map.lookup p.0 slaves ≡ some p.1) entries
      → All (λ p. Map.lookup p.0 ((name, info) ∷ slaves) ≡ some p.1) entries
  unfolding Map.has Map.lookup
  cons-own name info slaves [] new h = tt
  cons-own name info slaves ((n, i) ∷ rest) new h = (
    ground (arith, str_beq_iff name n, str_beq_iff n name, h.0),
    cons-own name info slaves rest (ground arith) h.1,
  )

  own_entries :
      (slaves : List (Str × SlaveInfo A))
      → IsMap slaves
      → All (λ p. Map.lookup p.0 slaves ≡ some p.1) slaves
  unfolding Map.lookup
  own_entries [] m = tt
  own_entries ((name, info) ∷ rest) m =
      (rw (==_refl name) refl, cons-own name info rest rest m.0 (own_entries rest m.1))

  -- Sweep keeps the ownership of addresses: the addresses of the slaves that it removes are released,
  -- and those of the others stand.
  pub sweep_keeps_ownership :
      (now age : ℕ) (r : Registry A) → IsMap r.slaves → Owned r → Owned (sweep now age r).registry
  unfolding sweep
  sweep_keeps_ownership now age r m h =
      sweep_loop-Owned now age r.slaves _ m (own_entries r.slaves m) h
