-- ===== src/Config/Valid.antt =====
-- internal/config/config.go: what a configuration that Validate accepts is good for: its targets are told
-- apart by their ids, whatever it names is defined, and its labels fit the wire.
use smokeping_go.Common.{
  ℕ, ◌≤◌, ◌≡◌, ◌↔◌, refl, ◌⊎◌, ℤ, Bool, true, false, not, ◌&&◌, Option, none, some, List, [], ◌∷◌,
  ◌++◌, arith, Str, str_eq, str_beq, Eq, length, All,
}
use smokeping_go.Common.Checks.{
  ◌<|>◌, refuse, each, ◌&◌, Checks, ◌and◌, refusing, checking_each, ltb_iff,
}
use smokeping_go.Common.Map
use smokeping_go.Cycle.{Target, TargetRef, id}
use smokeping_go.Limits.{max_label_len}
use smokeping_go.SlaveHealth.{health_group}
use smokeping_go.SlaveHealth.Snapshot.{Group}
use smokeping_go.Config.{Config, refs, refs_of}
use smokeping_go.Config.Addresses.{Reach}
use smokeping_go.Config.Storage.{ConfigError, check_storage}
use smokeping_go.Config.Validate.{
  check_names, check_target, check_targets, check_groups, check_schedule, check_probe, is_family,
  validate,
}

abbrev pub Filled : Str → Type 0
Filled s = str_beq s [] ≡ false

abbrev pub Short : Str → Type 0
Short s = length s ≤ max_label_len

-- Every name of the list is a key.
abbrev pub Known : {V : Type 0} → List (Str × V) → List Str → Type 0
Known m = All λ a. Map.has a m ≡ true

not_iff : (b : Bool) → (not b ≡ false) ↔ (b ≡ true)
not_iff b = (λ h. ground (arith, h), λ h. ground (arith, h))

itself_iff : (b : Bool) → (b ≡ false) ↔ (b ≡ false)
itself_iff b = (λ h. h, λ h. h)

check_names_iff :
    {V : Type 0} (err : ConfigError) (m : List (Str × V)) (names : List Str)
    → Checks (check_names err m names) (Known m names)
check_names_iff err m names = checking_each _ _ names λ a. refusing _ err (not_iff (Map.has a m))

either_iff : (h u : Bool) → ((h && u) ≡ false) ↔ ((h ≡ false) ⊎ (u ≡ false))
either_iff h u = (λ e. ground (arith, e), λ e. ground (arith, e))

abbrev pub TargetValid : Config → Target → Type 0
TargetValid c t =
    Filled t.probe
    & (Map.has t.probe c.probes ≡ true)
    & Short t.probe
    & (Filled t.host ⊎ Filled t.url)
    & (is_family t.family ≡ true)
    & Known c.alerts t.alerts

check_target_iff : (c : Config) (t : Target) → Checks (check_target c t) (TargetValid c t)
unfolding check_target
check_target_iff c t =
    refusing _ _ (itself_iff _)
    and refusing _ _ (not_iff _)
    and refusing _ _ (ltb_iff _ _)
    and refusing _ _ (either_iff _ _)
    and refusing _ _ (not_iff _)
    and check_names_iff _ c.alerts t.alerts

-- No id of the list stands in the map, or twice in the list.
abbrev pub Unseen : List (Str × Str) → List TargetRef → Type 0
Unseen seen [] = Unit
Unseen seen (r ∷ rs) = (Map.has (id r) seen ≡ false) × Unseen (Map.insert (id r) r.group seen) rs

abbrev pub NamedValid : Config → Target → Type 0
NamedValid c t = Filled t.name & Short t.name & TargetValid c t

-- What the loop over a group's targets wants before the rest, and of the targets themselves.
abbrev TargetsValid :
    Config → Str → List Target → List (Str × Str) → (List (Str × Str) → Type 0) → Type 0
TargetsValid c group [] seen Rest = Rest seen
TargetsValid c group (t ∷ ts) seen Rest =
    Filled t.name
    & Short t.name
    & (Map.has (group ++ b'/' ∷ t.name) seen ≡ false)
    & TargetValid c t
    & TargetsValid c group ts (Map.insert (group ++ b'/' ∷ t.name) group seen) Rest

check_targets_iff :
    (c : Config) (group : Str) (ts : List Target) (seen : List (Str × Str))
    (rest : List (Str × Str) → Option ConfigError) (Rest : List (Str × Str) → Type 0)
    → ((m : List (Str × Str)) → Checks (rest m) (Rest m))
    → Checks (check_targets c group ts seen rest) (TargetsValid c group ts seen Rest)
unfolding check_targets
check_targets_iff c group [] seen rest Rest h = h seen
check_targets_iff c group (t ∷ ts) seen rest Rest h =
    refusing _ _ (itself_iff _)
    and refusing _ _ (ltb_iff _ _)
    and refusing _ _ (itself_iff _)
    and check_target_iff c t
    and check_targets_iff c group ts _ rest Rest h

GroupsValid : Config → List Group → List (Str × Str) → Type 0
GroupsValid c [] seen = Unit
GroupsValid c (g ∷ gs) seen =
    Filled g.group
    & (str_beq g.group health_group ≡ false)
    & Short g.group
    & TargetsValid c g.group g.targets seen (GroupsValid c gs)

check_groups_iff :
    (c : Config) (gs : List Group) (seen : List (Str × Str))
    → Checks (check_groups c gs seen) (GroupsValid c gs seen)
unfolding check_groups GroupsValid
check_groups_iff c [] seen = (λ _. tt, λ _. refl)
check_groups_iff c (g ∷ gs) seen =
    refusing _ _ (itself_iff _)
    and refusing _ _ (itself_iff _)
    and refusing _ _ (ltb_iff _ _)
    and check_targets_iff c g.group g.targets seen _ _ (check_groups_iff c gs)

abbrev pub GroupValid : Config → Group → Type 0
GroupValid c g =
    Filled g.group
    & (str_beq g.group health_group ≡ false)
    & Short g.group
    & All (NamedValid c) g.targets

module _ (c : Config) (group : Str) (Rest : List (Str × Str) → Type 0) where
  targets_named :
      (ts : List Target) (seen : List (Str × Str))
      → TargetsValid c group ts seen Rest
      → All (NamedValid c) ts
  targets_named [] seen v = tt
  targets_named (t ∷ ts) seen (named, (short, (new, (valid, rest)))) =
      ((named, (short, valid)), targets_named ts _ rest)

  targets_rest :
      (ts : List Target) (seen : List (Str × Str))
      → TargetsValid c group ts seen Rest
      → (m : List (Str × Str)) × Rest m
  targets_rest [] seen v = (seen, v)
  targets_rest (t ∷ ts) seen (named, (short, (new, (valid, rest)))) = targets_rest ts _ rest

  targets-Unseen :
      (ts : List Target) (seen : List (Str × Str)) (rs : List TargetRef)
      → ((m : List (Str × Str)) → Rest m → Unseen m rs)
      → TargetsValid c group ts seen Rest
      → Unseen seen (refs_of group ts ++ rs)
  unfolding id
  targets-Unseen [] seen rs h v = h seen v
  targets-Unseen (t ∷ ts) seen rs h (named, (short, (new, (valid, rest)))) =
      (new, targets-Unseen ts _ rs h rest)

groups_valid :
    (c : Config) (gs : List Group) (seen : List (Str × Str))
    → GroupsValid c gs seen
    → All (GroupValid c) gs
unfolding GroupsValid
groups_valid c [] seen v = tt
groups_valid c (g ∷ gs) seen (named, (own, (short, rest))) =
    let (m, more) = targets_rest c g.group (GroupsValid c gs) g.targets seen rest in
    (
      (named, (own, (short, targets_named c g.group (GroupsValid c gs) g.targets seen rest))),
      groups_valid c gs m more,
    )

groups-Unseen :
    (c : Config) (gs : List Group) (seen : List (Str × Str))
    → GroupsValid c gs seen
    → Unseen seen (refs gs)
unfolding GroupsValid refs
groups-Unseen c [] seen v = tt
groups-Unseen c (g ∷ gs) seen (named, (own, (short, rest))) =
    targets-Unseen c g.group (GroupsValid c gs) g.targets seen (refs gs) (groups-Unseen c gs) rest

-- Both checks of a chain passed.
passed : {E : Type 0} (a b : Option E) → (a <|> b) ≡ none → (a ≡ none) × (b ≡ none)
passed none b h = (refl, h)
passed (some e) b h = absurd (ground (arith, h))

module _ {A : Type 0} ⦃e : Eq A⦄ (reach : Reach A) (parse_duration : Str → Option ℤ) where
  groups_passed :
      (now : ℕ) (c : Config)
      → (validate reach parse_duration now c).0 ≡ none
      → GroupsValid c c.targets []
  unfolding validate
  groups_passed now c h =
      let (_, h1) = passed (check_schedule c) _ h in
      let (_, h2) = passed (check_storage parse_duration now c.storage) _ h1 in
      let (_, h3) = passed (refuse _ _) _ h2 in
      let (_, h4) = passed (each check_probe c.probes) _ h3 in
      let (groups, _) = passed (check_groups c c.targets []) _ h4 in
      (check_groups_iff c c.targets []).0 groups

  -- Every group of a configuration that Validate accepts has a name that is not reserved, and every
  -- target of it a name, a host or an url, a family, and a probe and alerts that are defined; the
  -- labels of both have at most 256 bytes.
  pub validate-GroupValid :
      (now : ℕ) (c : Config)
      → (validate reach parse_duration now c).0 ≡ none
      → All (GroupValid c) c.targets
  validate-GroupValid now c h = groups_valid c c.targets [] (groups_passed now c h)

  pub validate-Unseen :
      (now : ℕ) (c : Config)
      → (validate reach parse_duration now c).0 ≡ none
      → Unseen [] (refs c.targets)
  validate-Unseen now c h = groups-Unseen c c.targets [] (groups_passed now c h)
