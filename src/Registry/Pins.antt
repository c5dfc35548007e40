-- ===== src/Registry/Pins.antt =====
-- The peers that the master probes, against the pins.
use smokeping_go.Common.{
  ◌≡◌, refl, ◌⊎◌, inl, inr, true, ◌&&◌, none, some, List, [], ◌∷◌, arith, Bool-cases, Option-cases,
  Str, str_eq, str_beq_iff, Eq, All,
}
use smokeping_go.Common.Map
use smokeping_go.Common.Sort.{sort_by, All-insert_by, IsSorted, sort_by-IsSorted}
use smokeping_go.SlaveHealth.Snapshot.{Peer}
use smokeping_go.Registry.{
  SlaveInfo, Registry, pin_admits_in, pinned_to, pin_owner_admits, eligible, peers,
}

module _ {A : Type 0} ⦃e : Eq A⦄ where
  -- A peer has an address; its own pin, if there is one, is that address, and the address is pinned to
  -- no other name.
  abbrev pub Admitted : List (Str × A) → Peer A → Type 0
  Admitted pins p =
      (a : A) × (p.addr ≡ some a)
      × ((Map.lookup p.name pins ≡ none) ⊎ (Map.lookup p.name pins ≡ some a))
      × ((Map.lookup a (pinned_to pins) ≡ none) ⊎ (Map.lookup a (pinned_to pins) ≡ some p.name))

  All-sort_by :
      (P : Peer A → Type 0) (ps : List (Peer A)) → All P ps → All P (sort_by (λ p. p.name) ps)
  unfolding sort_by
  All-sort_by P [] h = tt
  All-sort_by P (p ∷ ps) h =
      All-insert_by (λ p. p.name) P p (sort_by (λ p. p.name) ps) h.0 (All-sort_by P ps h.1)

  own_pin :
      (pins : List (Str × A)) (name : Str) (a : A)
      → pin_admits_in pins name a ≡ true
      → (Map.lookup name pins ≡ none) ⊎ (Map.lookup name pins ≡ some a)
  unfolding pin_admits_in
  own_pin pins name a h = elim (Option-cases (Map.lookup name pins)) [
    | inl free ↦ inl free
    | inr (pin, found) ↦ inr (ground (arith, found, h, e.beq_iff pin a))
  ]

  others_pin :
      (owners : List (A × Str)) (name : Str) (a : A)
      → pin_owner_admits owners name a ≡ true
      → (Map.lookup a owners ≡ none) ⊎ (Map.lookup a owners ≡ some name)
  others_pin owners name a h = elim (Option-cases (Map.lookup a owners)) [
    | inl free ↦ inl free
    | inr (n, found) ↦ inr (ground (arith, found, h, str_beq_iff n name))
  ]

  eligible-Admitted :
      (pins : List (Str × A)) (slaves : List (Str × SlaveInfo A))
      → All (Admitted pins) (eligible pins (pinned_to pins) slaves)
  unfolding eligible
  eligible-Admitted pins [] = tt
  eligible-Admitted pins ((n, info) ∷ rest) = elim (Option-cases info.advertise) [
    | inl missing ↦ rw missing (eligible-Admitted pins rest)
    | inr (a, found) ↦
        elim (Bool-cases
          (pin_admits_in pins info.name a && pin_owner_admits (pinned_to pins) info.name a)) [
            | inl both ↦
                rw (found, both)
                  (
                    (
                      a,
                      refl,
                      own_pin pins info.name a (ground arith),
                      others_pin (pinned_to pins) info.name a (ground arith),
                    ),
                    eligible-Admitted pins rest,
                  )
            | inr barred ↦ rw (found, barred) (eligible-Admitted pins rest)
          ]
  ]

  -- Peers are sorted by name, each has an address, and none stands against the live pins: its own pin
  -- is that address, and the address is not pinned to another name.
  pub peers-Admitted :
      (pins : List (Str × A)) (r : Registry A)
      → All (Admitted pins) (peers pins r) × IsSorted (λ p. p.name) (peers pins r)
  unfolding peers
  peers-Admitted pins r = (
    All-sort_by (Admitted pins) _ (eligible-Admitted pins r.slaves),
    sort_by-IsSorted (λ p. p.name) _,
  )
