-- ===== src/Registry/Ownership.antt =====
-- One claimant for each health address: the map of owners and the slaves' own fields are one fact.
use smokeping_go.Common.{
  ◌≡◌, refl, sym, ap, ◌∙◌, inl, inr, true, Option, none, some, arith, if◌then◌else◌, Option-cases,
  Str, str_eq, str_beq_iff, Eq, ◌==◌, ==_refl,
}
use smokeping_go.Common.Map
use smokeping_go.Registry.{SlaveInfo, Registry, same_addr, release}

module _ {A : Type 0} ⦃e : Eq A⦄ where
  -- The address that a slave advertises; none for a name that is not registered.
  abbrev pub advertised : Option (SlaveInfo A) → Option A
  advertised none = none
  advertised (some info) = info.advertise

  abbrev pub address : Registry A → Str → Option A
  address r name = advertised (Map.lookup name r.slaves)

  -- Owners and addresses are each other's inverse.
  pub record Fact (owner_of : A → Option Str) (address_of : Str → Option A) : Type 0 where
    pub owner_advertises : (a : A) (n : Str) → owner_of a ≡ some n → address_of n ≡ some a
    pub advertiser_owns : (a : A) (n : Str) → address_of n ≡ some a → owner_of a ≡ some n

  abbrev pub owner : Registry A → A → Option Str
  owner r a = Map.lookup a r.by_addr

  abbrev pub Owned : Registry A → Type 0
  Owned r = Fact (owner r) (address r)

  pub Fact-release :
      (o o' : A → Option Str) (f f' : Str → Option A) (a : A) (n : Str)
      → Fact o f
      → o a ≡ some n
      → ((b : A) → o' b ≡ (if a == b then none else o b))
      → ((m : Str) → f' m ≡ (if n == m then none else f m))
      → Fact o' f'
  Fact-release o o' f f' a n h held po pf = record {
    owner_advertises = λ b m k. ground (
      arith,
      po b,
      pf m,
      h.owner_advertises b m,
      h.owner_advertises a n,
      e.beq_iff a b,
      str_beq_iff n m,
      k,
    );
    advertiser_owns = λ b m k. ground (
      arith,
      po b,
      pf m,
      h.advertiser_owns b m,
      e.beq_iff a b,
      str_beq_iff n m,
      ap o {x = a} {y = b},
      k,
    );
  }

  pub Fact-claim :
      (o o' : A → Option Str) (f f' : Str → Option A) (a : A) (n : Str)
      → Fact o f
      → o a ≡ none
      → f n ≡ none
      → ((b : A) → o' b ≡ (if a == b then some n else o b))
      → ((m : Str) → f' m ≡ (if n == m then some a else f m))
      → Fact o' f'
  Fact-claim o o' f f' a n h free idle po pf = record {
    owner_advertises = λ b m k. ground (
      arith,
      po b,
      pf m,
      h.owner_advertises b m,
      e.beq_iff a b,
      str_beq_iff n m,
      ap f {x = n} {y = m},
      k,
    );
    advertiser_owns = λ b m k. ground (
      arith,
      po b,
      pf m,
      h.advertiser_owns b m,
      e.beq_iff a b,
      str_beq_iff n m,
      ap o {x = a} {y = b},
      k,
    );
  }

  pub same_addr→≡ : (a b : Option A) → same_addr a b ≡ true → a ≡ b
  same_addr→≡ none none h = refl
  same_addr→≡ none (some b) h = absurd (ground arith)
  same_addr→≡ (some a) none h = absurd (ground arith)
  same_addr→≡ (some a) (some b) h = ap some ((e.beq_iff a b).0 h)

  pub address-insert :
      (n m : Str) (info : SlaveInfo A) (r : Registry A)
      → advertised (Map.lookup m (Map.insert n info r.slaves))
        ≡ (if n == m then info.advertise else address r m)
  address-insert n m info r = ground (arith, Map.lookup-insert m n info r.slaves)

  pub release-address :
      (n : Str) (addr : A) (r : Registry A) (m : Str)
      → address r n ≡ some addr
      → address (release n addr r) m ≡ (if n == m then none else address r m)
  unfolding release Map.lookup
  release-address n addr r m h = elim (Option-cases (Map.lookup n r.slaves)) [
    | inl missing ↦ absurd (ground (arith, h))
    | inr (info, found) ↦
        rw (found, advertised, has_it info found)
          (address-insert n m (record info { advertise = none }) r)
  ]
    where
      has_it :
          (info : SlaveInfo A)
          → Map.lookup n r.slaves ≡ some info
          → same_addr info.advertise (some addr) ≡ true
      has_it info found = rw (sym (ap advertised found) ∙ h) (==_refl addr)

  pub release-Owned :
      (n : Str) (addr : A) (r : Registry A)
      → owner r addr ≡ some n
      → Owned r
      → Owned (release n addr r)
  unfolding release
  release-Owned n addr r held h =
      Fact-release (owner r) _ (address r) _ addr n h held (λ b. Map.lookup-delete b addr r.by_addr)
        (λ m. release-address n addr r m (h.owner_advertises addr n held))
