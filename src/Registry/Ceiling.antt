-- ===== src/Registry/Ceiling.antt =====
-- Touch never drops a slave, and never holds more than the ceiling.
use smokeping_go.Common.{
  ℕ, suc, ◌≤◌, ◌<◌, ◌≡◌, refl, sym, ap, ◌∙◌, subst, ◌⊎◌, inl, inr, true, false, not, ◌||◌, Option,
  none, some, List, [], arith, leb, if◌then◌else◌, Bool-cases, Option-cases, Str, str_eq, str_beq,
  str_beq_iff, Eq, ◌==◌, ==_refl, length, if_elim,
}
use smokeping_go.Common.Map
use smokeping_go.Limits.{max_registered_slaves}
use smokeping_go.Registry.{
  SlaveInfo, Registry, Touched, Resolution, new_info, same_addr, pin_admits_in, release,
  release_excluded, resolve_advertise, resolve_short, contest, weigh, is_long, check_in, admit,
  touch,
}

module _ {A : Type 0} ⦃e : Eq A⦄ where
  -- The same names are registered.
  record SameNames (r r' : Registry A) : Type 0 where
    size : length r'.slaves ≡ length r.slaves
    names : (m : Str) → Map.has m r'.slaves ≡ Map.has m r.slaves

  unchanged : (r : Registry A) → SameNames r r
  unchanged r = record { size = refl; names = λ m. refl }

  rewrite_known :
      (n : Str) (info : SlaveInfo A) (r r' : Registry A)
      → Map.has n r.slaves ≡ true
      → r'.slaves ≡ Map.insert n info r.slaves
      → SameNames r r'
  rewrite_known n info r r' known p = record {
    size = ap length p ∙ ground (arith, Map.length-insert n info r.slaves, known);
    names = λ m.
        ap (Map.has m) p
        ∙ ground (
          arith,
          Map.has-insert m n info r.slaves,
          known,
          str_beq_iff n m,
          ap (λ k. Map.has k r.slaves) {x = n} {y = m},
        );
  }

  release-SameNames : (n : Str) (addr : A) (r : Registry A) → SameNames r (release n addr r)
  unfolding release
  release-SameNames n addr r = elim (Option-cases (Map.lookup n r.slaves)) [
    | inl missing ↦ rw (missing, release) (record { size = refl; names = λ m. refl })
    | inr (info, found) ↦ elim (Bool-cases (same_addr info.advertise (some addr))) [
      | inl held ↦
          rewrite_known n (record info { advertise = none }) r _
            (Map.lookup-has n info r.slaves found) (rw (found, held, release) refl)
      | inr other ↦ rw (found, other, release) (record { size = refl; names = λ m. refl })
    ]
  ]

  release_excluded-SameNames :
      (pins : List (Str × A)) (name : Str) (addr : A) (r : Registry A)
      → SameNames r (release_excluded pins name addr r)
  unfolding release_excluded
  release_excluded-SameNames pins name addr r = elim (Option-cases (Map.lookup addr r.by_addr)) [
    | inl nobody ↦ rw (nobody, release_excluded) (unchanged r)
    | inr (n, held) ↦
        rw (held, release_excluded)
          (if_elim (SameNames r) _ _ _ (release-SameNames n addr r) (unchanged r))
  ]

  module _ (parse_advertise : Str → Option A) (observed : Str → Option A) where
    contest-registry :
        (r : Registry A) (name advertise remote : Str) (addr : A) (o : Option Str)
        → (contest parse_advertise observed r name advertise remote addr o).registry ≡ r
    unfolding contest
    contest-registry r name advertise remote addr none = refl
    contest-registry r name advertise remote addr (some n) =
        if_elim (λ (s : Resolution A). s.registry ≡ r) (str_beq n name) _ _ refl refl

    weigh-SameNames :
        (pins : List (Str × A)) (r : Registry A) (name advertise remote : Str) (o : Option A)
        → SameNames r (weigh parse_advertise observed pins r name advertise remote o).registry
    unfolding weigh
    weigh-SameNames pins r name advertise remote none = unchanged r
    weigh-SameNames pins r name advertise remote (some addr) =
        if_elim (λ (s : Resolution A). SameNames r s.registry) (not (pin_admits_in pins name addr))
          _ _ (unchanged r)
          (subst (SameNames r)
            (sym
              (contest-registry (release_excluded pins name addr r) name advertise remote addr _))
            (release_excluded-SameNames pins name addr r))

    resolve_short-SameNames :
        (pins : List (Str × A)) (r : Registry A) (name advertise remote log_state : Str)
        → SameNames r
            (resolve_short parse_advertise observed pins r name advertise remote log_state).registry
    unfolding resolve_short resolve_advertise
    resolve_short-SameNames pins r name advertise remote log_state =
        if_elim (λ (s : Resolution A). SameNames r s.registry) (is_long advertise) _ _ (unchanged r)
          (if_elim (λ (s : Resolution A). SameNames r s.registry) (str_beq advertise []) _ _
            (unchanged r)
            (weigh-SameNames pins r name advertise remote (parse_advertise advertise)))

    -- A slave that checks in is registered, and so are exactly those that were.
    Entered : Str → Registry A → Registry A → Type 0
    Entered name r r' =
        (length r'.slaves
          ≡ (if Map.has name r.slaves then length r.slaves else suc (length r.slaves)))
        × ((m : Str) → Map.has m r'.slaves ≡ (name == m || Map.has m r.slaves))

    check_in-Entered :
        (pins : List (Str × A)) (now : ℕ) (r : Registry A) (info : SlaveInfo A)
        (name version addr advertise : Str)
        → Entered name r
            (check_in parse_advertise observed pins now r info name version addr advertise).registry
    unfolding check_in Entered
    check_in-Entered pins now r info name version addr advertise =
        let seen = record info {
          addr = addr;
          last_seen = now;
          version = if is_long version then info.version else version;
        } in
        let entered = record r { slaves = Map.insert name seen r.slaves } in
        let same =
          resolve_short-SameNames pins entered name advertise addr seen.advertise_log_state in
        let resolved =
          resolve_short parse_advertise observed pins entered name advertise addr
            seen.advertise_log_state in
        let after = resolved.registry in
        let here : Map.has name after.slaves ≡ true =
          ground (arith, same.names name, Map.has-insert name name seen r.slaves, ==_refl name) in
        let final = record seen {
          advertise = resolved.advertise;
          advertise_log_state = resolved.log_state;
          warned_long_field = is_long version || is_long advertise;
        } in
        let last =
          rewrite_known name final after
            (record after { slaves = Map.insert name final after.slaves }) here refl in
        (
          last.size ∙ same.size ∙ Map.length-insert name seen r.slaves,
          λ m. last.names m ∙ same.names m ∙ Map.has-insert m name seen r.slaves,
        )

    -- At most 512 names, of which none but `name` is new and none is gone.
    abbrev Fine : Str → Registry A → Registry A → Type 0
    Fine name r r' =
        (length r'.slaves ≤ max_registered_slaves)
        × ((m : Str)
            → (Map.has m r'.slaves ≡ Map.has m r.slaves)
              ⊎ ((name ≡ m) × (Map.has m r'.slaves ≡ true)))

    Entered-Fine :
        (name : Str) (r r' : Registry A)
        → length r.slaves ≤ max_registered_slaves
        → (Map.has name r.slaves ≡ true) ⊎ (length r.slaves < max_registered_slaves)
        → Entered name r r'
        → Fine name r r'
    unfolding Entered
    Entered-Fine name r r' le room (size, names) =
        (bound room, λ m. known m (Bool-cases (str_beq name m)))
      where
        bound :
            (Map.has name r.slaves ≡ true) ⊎ (length r.slaves < max_registered_slaves)
            → length r'.slaves ≤ max_registered_slaves
        bound (inl old) = ground (arith, size, old, le)
        bound (inr new) = ground (arith, size, new, le)

        known :
            (m : Str)
            → (str_beq name m ≡ true) ⊎ (str_beq name m ≡ false)
            → (Map.has m r'.slaves ≡ Map.has m r.slaves)
              ⊎ ((name ≡ m) × (Map.has m r'.slaves ≡ true))
        known m (inl same) = inr ((str_beq_iff name m).0 same, ground (arith, names m, same))
        known m (inr other) = inl (ground (arith, names m, other))

    admit-Fine :
        (pins : List (Str × A)) (now : ℕ) (r : Registry A) (name version addr advertise : Str)
        (o : Option (SlaveInfo A))
        → length r.slaves ≤ max_registered_slaves
        → Map.lookup name r.slaves ≡ o
        → Fine name r
            (admit parse_advertise observed pins now r name version addr advertise o).registry
    unfolding admit
    admit-Fine pins now r name version addr advertise (some info) le found =
        Entered-Fine name r _ le (inl (Map.lookup-has name info r.slaves found))
          (check_in-Entered pins now r info name version addr advertise)
    admit-Fine pins now r name version addr advertise none le missing =
        elim (Bool-cases (leb max_registered_slaves (length r.slaves))) [
          | inl full ↦ rw full (
              if_elim (λ (t : Touched A). Fine name r t.registry)
                (is_long version || is_long advertise) _ _ (le, λ m. inl refl) (le, λ m. inl refl))
          | inr room ↦ rw room (
              if_elim (λ (t : Touched A). Fine name r t.registry)
                (is_long version || is_long advertise) _ _ (le, λ m. inl refl)
                (Entered-Fine name r _ le (inr (ground arith))
                  (check_in-Entered pins now r (new_info name) name version addr advertise)))
        ]

    -- Touch drops no registered slave, registers no name but the one it is given, and never holds more
    -- than 512 slaves.
    pub touch_bounded :
        (pins : List (Str × A)) (now : ℕ) (r : Registry A) (name version addr advertise : Str)
        → length r.slaves ≤ max_registered_slaves
        → let r' =
            (touch parse_advertise observed pins now r name version addr advertise).registry in
          (length r'.slaves ≤ max_registered_slaves)
          × ((m : Str)
              → (Map.has m r'.slaves ≡ Map.has m r.slaves)
                ⊎ ((name ≡ m) × (Map.has m r'.slaves ≡ true)))
    unfolding touch
    touch_bounded pins now r name version addr advertise le =
        if_elim (λ (t : Touched A). Fine name r t.registry) (str_beq name []) _ _
          (le, λ m. inl refl)
          (admit-Fine pins now r name version addr advertise (Map.lookup name r.slaves) le refl)
