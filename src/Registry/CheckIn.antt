-- ===== src/Registry/CheckIn.antt =====
-- Touch keeps the ownership of addresses.
use smokeping_go.Common.{
  if_elim, ℕ, ◌≡◌, refl, sym, ap, ◌∙◌, subst, ◌⊎◌, inl, inr, Bool, true, false, ◌||◌, Option, none,
  some, List, [], arith, leb, if◌then◌else◌, Bool-cases, Option-cases, Str, str_eq, str_beq,
  str_beq_iff, Eq, ◌==◌, ==_refl, length,
}
use smokeping_go.Common.Map
use smokeping_go.Limits.{max_registered_slaves}
use smokeping_go.Registry.{
  SlaveInfo, Registry, Touched, Resolution, new_info, same_addr, drop_owned, move, pin_admits_in,
  release, release_excluded, resolve_advertise, resolve_short, contest, weigh, is_long, check_in,
  admit, touch,
}
use smokeping_go.Registry.Ownership.{
  Fact, owner, address, advertised, Owned, Fact-release, Fact-claim, release-address, release-Owned,
  address-insert, same_addr→≡,
}

module _ {A : Type 0} ⦃e : Eq A⦄ where
  -- What a resolution promises: the claimant's own entry stands, and what it gets is free or its own.
  record Fair (r : Registry A) (name : Str) (r' : Registry A) (next : Option A) : Type 0 where
    owned : Owned r'
    stands : address r' name ≡ address r name
    free : (a : A) → next ≡ some a → (owner r' a ≡ none) ⊎ (owner r' a ≡ some name)

  Stable : Registry A → Str → Registry A → Type 0
  Stable r name r' = Owned r' × (address r' name ≡ address r name)

  release-Stable :
      (n name : Str) (addr : A) (r : Registry A)
      → str_beq n name ≡ false
      → owner r addr ≡ some n
      → Owned r
      → Stable r name (release n addr r)
  unfolding Stable
  release-Stable n name addr r other held h = (
    release-Owned n addr r held h,
    rw other at (release-address n addr r name (h.owner_advertises addr n held)),
  )

  choose :
      (P : Registry A → Type 0) (b : Bool) (x y : Registry A)
      → (b ≡ true → P x)
      → P y
      → P (if b then x else y)
  choose P true x y h k = h refl
  choose P false x y h k = k

  release_excluded-Stable :
      (pins : List (Str × A)) (name : Str) (addr : A) (r : Registry A)
      → Owned r
      → Stable r name (release_excluded pins name addr r)
  unfolding release_excluded Stable
  release_excluded-Stable pins name addr r h = elim (Option-cases (Map.lookup addr r.by_addr)) [
    | inl nobody ↦ rw (nobody, release_excluded) (h, refl)
    | inr (n, held) ↦
        rw (held, release_excluded)
          (choose (Stable r name) _ _ _ (λ b. release-Stable n name addr r (ground arith) held h)
            (h, refl))
  ]

  module _ (parse_advertise : Str → Option A) (observed : Str → Option A) where
    abbrev IsFair : Registry A → Str → Resolution A → Type 0
    IsFair r name s = Fair r name s.registry s.advertise

    contest-Fair :
        (r r' : Registry A) (name advertise remote : Str) (addr : A) (o : Option Str)
        → Stable r name r'
        → owner r' addr ≡ o
        → IsFair r name (contest parse_advertise observed r' name advertise remote addr o)
    unfolding contest Stable
    contest-Fair r r' name advertise remote addr none h o = record {
      owned = h.0;
      stands = h.1;
      free = λ a k. inl (ground (arith, ap (owner r') {x = addr} {y = a}, o, k));
    }
    contest-Fair r r' name advertise remote addr (some n) h o = elim (Bool-cases (str_beq n name)) [
      | inl own ↦ rw own (record {
        owned = h.0;
        stands = h.1;
        free =
            λ a k. inr (ground (arith, ap (owner r') {x = addr} {y = a}, o, k, str_beq_iff n name));
      })
      | inr other ↦
          rw other (record { owned = h.0; stands = h.1; free = λ a k. absurd (ground (arith, k)) })
    ]

    weigh-Fair :
        (pins : List (Str × A)) (r : Registry A) (name advertise remote : Str) (o : Option A)
        → Owned r
        → IsFair r name (weigh parse_advertise observed pins r name advertise remote o)
    unfolding weigh
    weigh-Fair pins r name advertise remote none h = record {
      owned = h;
      stands = refl;
      free = λ a k. absurd (ground (arith, k));
    }
    weigh-Fair pins r name advertise remote (some addr) h =
        elim (Bool-cases (pin_admits_in pins name addr)) [
          | inl good ↦ rw good (
              contest-Fair r _ name advertise remote addr _
                (release_excluded-Stable pins name addr r h) refl)
          | inr bad ↦
              rw bad (record { owned = h; stands = refl; free = λ a k. absurd (ground (arith, k)) })
        ]

    resolve_short-Fair :
        (pins : List (Str × A)) (r : Registry A) (name advertise remote log_state : Str)
        → Owned r
        → IsFair r name
            (resolve_short parse_advertise observed pins r name advertise remote log_state)
    unfolding resolve_short resolve_advertise
    resolve_short-Fair pins r name advertise remote log_state h =
        elim (Bool-cases (is_long advertise)) [
          | inl long ↦ rw long idle
          | inr short ↦ elim (Bool-cases (str_beq advertise [])) [
            | inl empty ↦ rw (short, empty) idle
            | inr given ↦
                rw (short, given)
                  (weigh-Fair pins r name advertise remote (parse_advertise advertise) h)
          ]
        ]
      where
        idle : Fair r name r none
        idle = record { owned = h; stands = refl; free = λ a k. absurd (ground (arith, k)) }

  drop_owned-delete :
      (r : Registry A) (name : Str) (p b : A)
      → owner r p ≡ some name
      → Map.lookup b (drop_owned name (some p) r.by_addr) ≡ (if p == b then none else owner r b)
  unfolding drop_owned
  drop_owned-delete r name p b h = rw (h, ==_refl name) (Map.lookup-delete b p r.by_addr)

  pub Fact-ext :
      (o o' : A → Option Str) (f f' : Str → Option A)
      → Fact o f
      → ((b : A) → o' b ≡ o b)
      → ((m : Str) → f' m ≡ f m)
      → Fact o' f'
  Fact-ext o o' f f' h po pf = record {
    owner_advertises = λ b m k. pf m ∙ h.owner_advertises b m (sym (po b) ∙ k);
    advertiser_owns = λ b m k. po b ∙ h.advertiser_owns b m (sym (pf m) ∙ k);
  }

  -- The owners without the claimant's own, and the addresses without its own.
  abbrev pub left : Registry A → Str → Str → Option A
  left r name m = if name == m then none else address r m

  pub drop_owned-Fact :
      (r : Registry A) (name : Str) (prev : Option A)
      → Owned r
      → address r name ≡ prev
      → Fact (λ a. Map.lookup a (drop_owned name prev r.by_addr)) (left r name)
  unfolding drop_owned
  drop_owned-Fact r name none h p =
      Fact-ext _ _ _ _ h (λ b. refl)
        (λ m. ground (arith, str_beq_iff name m, ap (address r) {x = name} {y = m}, p))
  drop_owned-Fact r name (some a) h p =
      Fact-release _ _ _ _ a name h (h.advertiser_owns a name p)
        (λ b. drop_owned-delete r name a b (h.advertiser_owns a name p)) (λ m. refl)

  dropped-free :
      (r : Registry A) (name : Str) (prev : Option A) (a : A)
      → Owned r
      → address r name ≡ prev
      → same_addr (some a) prev ≡ false
      → (owner r a ≡ none) ⊎ (owner r a ≡ some name)
      → Map.lookup a (drop_owned name prev r.by_addr) ≡ none
  unfolding drop_owned
  dropped-free r name none a h p differ free = ground (arith, free, h.owner_advertises a name, p)
  dropped-free r name (some q) a h p differ free =
      drop_owned-delete r name q a (h.advertiser_owns q name p)
      ∙ ground (arith, free, h.owner_advertises a name, p, e.beq_iff a q)

  -- The slave's half of the fact, whose other half `move` keeps.
  moved :
      (r : Registry A) (name : Str) (prev next : Option A) (f' : Str → Option A)
      → Owned r
      → address r name ≡ prev
      → ((a : A) → next ≡ some a → (owner r a ≡ none) ⊎ (owner r a ≡ some name))
      → ((m : Str) → f' m ≡ (if name == m then next else address r m))
      → Fact (λ a. Map.lookup a (move name prev next r.by_addr)) f'
  unfolding move
  moved r name prev next f' h p free pf = elim (Bool-cases (same_addr next prev)) [
    | inl same ↦
        Fact-ext _ _ _ _ h (λ b. rw same refl)
          (λ m. ground (
            arith,
            pf m,
            str_beq_iff name m,
            ap (address r) {x = name} {y = m},
            p,
            same_addr→≡ next prev same,
          ))
    | inr differ ↦ claimed next differ free pf
  ]
    where
      claimed :
          (next : Option A)
          → same_addr next prev ≡ false
          → ((a : A) → next ≡ some a → (owner r a ≡ none) ⊎ (owner r a ≡ some name))
          → ((m : Str) → f' m ≡ (if name == m then next else address r m))
          → Fact (λ a. Map.lookup a (move name prev next r.by_addr)) f'
      claimed none differ free pf =
          Fact-ext _ _ _ _ (drop_owned-Fact r name prev h p) (λ b. rw (differ, move) refl) pf
      claimed (some a) differ free pf =
          Fact-claim _ _ _ _ a name (drop_owned-Fact r name prev h p)
            (dropped-free r name prev a h p differ (free a refl)) (rw (==_refl name, left) refl)
            (λ b. rw (differ, move) (Map.lookup-insert b a name (drop_owned name prev r.by_addr)))
            (λ m. ground (arith, pf m))

  module _ (parse_advertise : Str → Option A) (observed : Str → Option A) where
    enter-Owned :
        (r : Registry A) (name : Str) (seen : SlaveInfo A)
        → Owned r
        → address r name ≡ seen.advertise
        → Owned (record r { slaves = Map.insert name seen r.slaves })
    enter-Owned r name seen h p =
        Fact-ext _ _ _ _ h (λ b. refl)
          (λ m.
            address-insert name m seen r
            ∙ ground (arith, str_beq_iff name m, ap (address r) {x = name} {y = m}, p))

    check_in-Owned :
        (pins : List (Str × A)) (now : ℕ) (r : Registry A) (info : SlaveInfo A)
        (name version addr advertise : Str)
        → Owned r
        → address r name ≡ info.advertise
        → Owned
            (check_in parse_advertise observed pins now r info name version addr advertise).registry
    unfolding check_in
    check_in-Owned pins now r info name version addr advertise h p =
        let seen = record info {
          addr = addr;
          last_seen = now;
          version = if is_long version then info.version else version;
        } in
        let entered = record r { slaves = Map.insert name seen r.slaves } in
        let fair =
          resolve_short-Fair parse_advertise observed pins entered name advertise addr
            seen.advertise_log_state (enter-Owned r name seen h p) in
        let after =
          (resolve_short parse_advertise observed pins entered name advertise addr
            seen.advertise_log_state).registry in
        moved after name info.advertise _ _ fair.owned
          (fair.stands ∙ ap advertised (Map.lookup-insert_self name seen r.slaves)) fair.free
          (λ m. address-insert name m _ after)

    -- Touch keeps the ownership of addresses, whatever it is given and whatever the pins are: a name
    -- owns an address exactly if the slave of that name advertises it, so no address has two claimants.
    pub touch_keeps_ownership :
        (pins : List (Str × A)) (now : ℕ) (r : Registry A) (name version addr advertise : Str)
        → Owned r
        → Owned (touch parse_advertise observed pins now r name version addr advertise).registry
    unfolding touch admit
    touch_keeps_ownership pins now r name version addr advertise h =
        elim (Bool-cases (str_beq name [])) [
          | inl empty ↦ rw empty h
          | inr named ↦
              subst (λ t. Owned t.registry) (sym (opened named))
                (entry (Map.lookup name r.slaves) refl)
        ]
      where
        opened :
            str_beq name [] ≡ false
            → touch parse_advertise observed pins now r name version addr advertise
              ≡ admit parse_advertise observed pins now r name version addr advertise
                  (Map.lookup name r.slaves)
        opened named = rw (named, touch) refl

        entry :
            (o : Option (SlaveInfo A))
            → Map.lookup name r.slaves ≡ o
            → Owned
                (admit parse_advertise observed pins now r name version addr advertise o).registry
        entry (some info) o =
            check_in-Owned pins now r info name version addr advertise h (ap advertised o)
        entry none o =
            if_elim (λ (t : Touched A). Owned t.registry) (is_long version || is_long advertise) _ _
              h
              (if_elim (λ (t : Touched A). Owned t.registry)
                (leb max_registered_slaves (length r.slaves)) _ _ h
                (check_in-Owned pins now r (new_info name) name version addr advertise h
                  (ap advertised o)))
