-- ===== src/Server/Leaving.antt =====
-- internal/cluster/master: a sweep of the registry takes the windows of the slaves that are gone.
use smokeping_go.Common.{
  ℕ, ◌≤◌, ◌≡◌, refl, subst, ◌∙◌, ◌⊎◌, inl, inr, Bool, true, false, ◌||◌, some, List, [], ◌∷◌, ◌++◌,
  arith, if◌then◌else◌, if_elim, Bool-cases, Str, str_eq, str_beq, str_beq_iff, Eq, length,
}
use smokeping_go.Common.Map
use smokeping_go.Dedup.{CycleDedup, forget_source}
use smokeping_go.Dedup.Names.{windowed, forget_source-windowed, forget_source-registered}
use smokeping_go.Dedup.Sources.{still_held}
use smokeping_go.Registry.{SlaveInfo, Swept, has, sweep, sweep_loop, sweep_one, is_gone}
use smokeping_go.Server.{Server, forget_all, sweep_slaves}
use smokeping_go.Server.Coupling.{Coupled}

listed : Str → List Str → Bool
listed n [] = false
listed n (m ∷ ms) = str_beq m n || listed n ms

listed-append : (n : Str) (xs ys : List Str) → listed n (xs ++ ys) ≡ (listed n xs || listed n ys)
unfolding listed
listed-append n [] ys = refl
listed-append n (x ∷ xs) ys = ground (arith, listed-append n xs ys)

-- What the release of some sources leaves.
forget_all-registered :
    (names : List Str) (d : CycleDedup) → (forget_all names d).registered ≡ d.registered
unfolding forget_all
forget_all-registered [] d = refl
forget_all-registered (m ∷ ms) d =
    forget_all-registered ms (forget_source d m) ∙ forget_source-registered d m

forget_all-windowed :
    (names : List Str) (d : CycleDedup) (f : Str → Bool) (n : Str)
    → d.registered ≡ some f
    → windowed (forget_all names d) n ≡ true
    → (windowed d n ≡ true) × ((listed n names ≡ false) ⊎ (f n ≡ true))
unfolding forget_all listed
forget_all-windowed [] d f n reg h = (h, inl refl)
forget_all-windowed (m ∷ ms) d f n reg h =
    let (rest, out) =
      forget_all-windowed ms (forget_source d m) f n (forget_source-registered d m ∙ reg) h in
    let (here, kept) = forget_source-windowed d m n rest in
    (here, both (Bool-cases (str_beq m n)) kept out)
  where
    both :
        (str_beq m n ≡ true) ⊎ (str_beq m n ≡ false)
        → (str_beq m n ≡ false) ⊎ (still_held d.registered m ≡ true)
        → (listed n ms ≡ false) ⊎ (f n ≡ true)
        → ((str_beq m n || listed n ms) ≡ false) ⊎ (f n ≡ true)
    both apart kept (inr held) = inr held
    both (inl same) (inl other) out = absurd (ground arith)
    both (inl same) (inr held) (inl out) =
        let held' : still_held (some f) m ≡ true = subst (λ o. still_held o m ≡ true) reg held in
        inr (subst (λ k. f k ≡ true) ((str_beq_iff m n).0 same) held')
    both (inr other) kept (inl out) = inl (rw (other, out) refl)

module _ {A : Type 0} ⦃e : Eq A⦄ where
  -- A slave is registered, or Sweep has removed it.
  abbrev Seen : Str → Swept A → Type 0
  Seen n s = (Map.has n s.registry.slaves ≡ true) ⊎ (listed n s.removed ≡ true)

  sweep_one-Seen :
      (name : Str) (info : SlaveInfo A) (s : Swept A) (n : Str)
      → Seen n s
      → Seen n (sweep_one name info s)
  unfolding sweep_one listed
  sweep_one-Seen name info s n h = elim (Bool-cases (str_beq name n)) [
    | inl same ↦ inr (ground (arith, same, listed-append n s.removed (name ∷ [])))
    | inr other ↦ elim h [
      | inl here ↦ inl (ground (arith, here, other, Map.has-delete n name s.registry.slaves))
      | inr gone ↦ inr (ground (arith, gone, listed-append n s.removed (name ∷ [])))
    ]
  ]

  sweep_loop-Seen :
      (now age : ℕ) (entries : List (Str × SlaveInfo A)) (s : Swept A) (n : Str)
      → Seen n s
      → Seen n (sweep_loop now age entries s)
  unfolding sweep_loop
  sweep_loop-Seen now age [] s n h = h
  sweep_loop-Seen now age ((name, info) ∷ rest) s n h =
      sweep_loop-Seen now age rest _ n
        (if_elim (Seen n) (is_gone now age info) _ _ (sweep_one-Seen name info s n h) h)

  sweep_loop-length :
      (now age : ℕ) (entries : List (Str × SlaveInfo A)) (s : Swept A)
      → length (sweep_loop now age entries s).registry.slaves ≤ length s.registry.slaves
  unfolding sweep_loop sweep_one
  sweep_loop-length now age [] s = omega arith
  sweep_loop-length now age ((name, info) ∷ rest) s =
      let s' = if is_gone now age info then sweep_one name info s else s in
      let shrinks : length s'.registry.slaves ≤ length s.registry.slaves =
        if_elim (λ (t : Swept A). length t.registry.slaves ≤ length s.registry.slaves)
          (is_gone now age info) _ _ (Map.length-delete-le name s.registry.slaves) (omega arith) in
      omega (arith, shrinks, sweep_loop-length now age rest s')

module _ {A : Type 0} ⦃e : Eq A⦄ where
  -- A sweep keeps the coupling: no window outlives its slave.
  pub sweep_slaves-Coupled :
      (now age : ℕ) (s : Server A) → Coupled s → Coupled (sweep_slaves now age s)
  unfolding sweep_slaves sweep has
  sweep_slaves-Coupled now age s c = record {
    ceiling = omega (arith, c.ceiling, sweep_loop-length now age s.registry.slaves _);
    owned = λ n h.
        let swept = sweep now age s.registry in
        let (before, kept) =
          forget_all-windowed swept.removed
            (record (s.dedup) { registered = some (has swept.registry) }) (has swept.registry) n
            refl h in
        elim kept [
          | inl stayed ↦
              elim (sweep_loop-Seen now age s.registry.slaves _ n (inl (c.owned n before))) [
                | inl here ↦ here
                | inr gone ↦ absurd (ground (arith, stayed, gone))
              ]
          | inr again ↦ again
        ];
  }
