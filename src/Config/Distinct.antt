-- ===== src/Config/Distinct.antt =====
-- internal/config/config.go and internal/cluster/master/inbound.go: under a configuration that Validate
-- accepts, the ingest's table finds every target under its own id.
use smokeping_go.Common.{
  ℕ, ◌≡◌, ◌≢◌, ◌++◌, refl, sym, ap, ap₂, str_beq_iff, All-append, map, ◌∙◌, subst, inl, inr, In,
  Bool, str_beq, ℤ, true, false, Option, none, some, List, [], ◌∷◌, arith, Str, str_eq, Eq, ==_refl,
  All,
}
use smokeping_go.Common.Map
use smokeping_go.Cycle.{Cycle, Target, TargetRef, id}
use smokeping_go.Config.{Config, all_targets, refs, refs_of}
use smokeping_go.Config.Addresses.{Reach}
use smokeping_go.Config.Validate.{validate}
use smokeping_go.Config.Valid.{Unseen, GroupValid, validate-GroupValid, validate-Unseen}
use smokeping_go.Config.Mesh.{peers_of, OfMesh, probe-OfMesh}
use smokeping_go.SlaveHealth.{health_group}
use smokeping_go.SlaveHealth.Snapshot.{Peer, Group}
use smokeping_go.Server.{Platform, World, resolve, known_targets}

-- A target whose id was seen before keeps its place.
resolve_keeps :
    (k : Str) (ts : List TargetRef) (seen : List (Str × Str)) (m : List (Str × TargetRef))
    → Map.has k seen ≡ true
    → Unseen seen ts
    → Map.lookup k (resolve ts m) ≡ Map.lookup k m
unfolding resolve
resolve_keeps k [] seen m h u = refl
resolve_keeps k (t ∷ ts) seen m h (new, u) =
    resolve_keeps k ts (Map.insert (id t) t.group seen) (Map.insert (id t) t m)
      (ground (arith, h, Map.has-insert k (id t) t.group seen)) u
    ∙ Map.lookup-insert_ne k (id t) t m apart
  where
    apart : id t ≢ k
    apart same =
        let e : Map.has k seen ≡ false = sym (ap (λ j. Map.has j seen) same) ∙ new in
        ground (arith, h, e)

resolve_finds :
    (ts : List TargetRef) (seen : List (Str × Str)) (m : List (Str × TargetRef))
    → Unseen seen ts
    → All (λ t. Map.lookup (id t) (resolve ts m) ≡ some t) ts
unfolding resolve
resolve_finds [] seen m u = tt
resolve_finds (t ∷ ts) seen m (new, u) = (
  resolve_keeps (id t) ts (Map.insert (id t) t.group seen) (Map.insert (id t) t m)
        (Map.has-insert (id t) (id t) t.group seen ∙ ground (arith, ==_refl (id t))) u
      ∙ Map.lookup-insert_self (id t) t m,
  resolve_finds ts (Map.insert (id t) t.group seen) (Map.insert (id t) t m) u,
)

-- Targets under other ids leave an entry as it is.
resolve_other :
    (k : Str) (ts : List TargetRef) (m : List (Str × TargetRef))
    → All (λ r. id r ≢ k) ts
    → Map.lookup k (resolve ts m) ≡ Map.lookup k m
unfolding resolve
resolve_other k [] m h = refl
resolve_other k (t ∷ ts) m (other, h) =
    resolve_other k ts (Map.insert (id t) t m) h ∙ Map.lookup-insert_ne k (id t) t m other

In-middle : (sep : ℕ) (a n : Str) → In sep (a ++ sep ∷ n)
In-middle sep [] n = inl refl
In-middle sep (x ∷ a) n = inr (In-middle sep a n)

heads : {x y : ℕ} {xs ys : Str} → x ∷ xs ≡ y ∷ ys → x ≡ y
heads h = ground (arith, h)

tails : {x y : ℕ} {xs ys : Str} → x ∷ xs ≡ y ∷ ys → xs ≡ ys
tails h = ground (arith, h)

-- A text with one separator is parted there in one way.
parted_once :
    (sep : ℕ) (a b n m : Str) → ¬ In sep b → ¬ In sep m → a ++ sep ∷ n ≡ b ++ sep ∷ m → a ≡ b
parted_once sep [] [] n m fresh once h = refl
parted_once sep [] (y ∷ b) n m fresh once h = absurd (fresh (inl (heads h)))
parted_once sep (x ∷ a) [] n m fresh once h =
    absurd (once (subst (In sep) (tails h) (In-middle sep a n)))
parted_once sep (x ∷ a) (y ∷ b) n m fresh once h =
    ap₂ (λ u v. u ∷ v) (heads h) (parted_once sep a b n m (λ i. fresh (inr i)) once (tails h))

no_slash : ¬ In b'/' health_group
no_slash i = ground (arith, i)

plain_name :
    {A : Type 0} (sep : ℕ) (ps : List (Peer A)) (n : Str)
    → All (λ p. ¬ In sep p.name) ps
    → In n (map (λ p. p.name) ps)
    → ¬ In sep n
plain_name sep [] n h i = elim i [ ]
plain_name sep (p ∷ ps) n (plain, h) (inl here) = λ i. plain (subst (In sep) here i)
plain_name sep (p ∷ ps) n (plain, h) (inr there) = plain_name sep ps n h there

abbrev Own : TargetRef → Type 0
Own t = str_beq t.group health_group ≡ false

refs_of-Own :
    (group : Str) (ts : List Target)
    → str_beq group health_group ≡ false
    → All Own (refs_of group ts)
refs_of-Own group [] h = tt
refs_of-Own group (t ∷ ts) h = (h, refs_of-Own group ts h)

refs-Own : (c : Config) (gs : List Group) → All (GroupValid c) gs → All Own (refs gs)
unfolding refs
refs-Own c [] h = tt
refs-Own c (g ∷ gs) (valid, h) =
    All-append Own (refs_of g.group g.targets) (refs gs) (refs_of-Own g.group g.targets valid.1.0)
      (refs-Own c gs h)

-- No mesh target has the id of a target outside the reserved group, if no peer has a slash in its name.
apart_from_mesh :
    {A : Type 0} (ps : List (Peer A)) (exclude : Str) (t : TargetRef) (rs : List TargetRef)
    → Own t
    → All (λ p. ¬ In b'/' p.name) ps
    → All (OfMesh exclude ps) rs
    → All (λ r. id r ≢ id t) rs
unfolding id
apart_from_mesh ps exclude t [] own plain h = tt
apart_from_mesh ps exclude t (r ∷ rs) own plain ((group, other, named), h) = (
  (λ same.
      let e : t.group ++ b'/' ∷ t.target.name ≡ health_group ++ b'/' ∷ r.target.name =
        sym same ∙ ap (λ g. g ++ b'/' ∷ r.target.name) group in
      let taken =
        parted_once b'/' t.group health_group t.target.name r.target.name no_slash
          (plain_name b'/' ps r.target.name plain named) e in
      let reserved = (str_beq_iff t.group health_group).1 taken in ground (arith, own, reserved)),
  apart_from_mesh ps exclude t rs own plain h,
)

-- What one table finds, the other finds too where the targets added are others.
found_beside :
    (mesh ts : List TargetRef) (m : List (Str × TargetRef))
    → ((t : TargetRef) → Own t → All (λ r. id r ≢ id t) mesh)
    → All Own ts
    → All (λ t. Map.lookup (id t) m ≡ some t) ts
    → All (λ t. Map.lookup (id t) (resolve mesh m) ≡ some t) ts
found_beside mesh [] m apart own h = tt
found_beside mesh (t ∷ ts) m apart (own, owns) (here, h) =
    (resolve_other (id t) mesh m (apart t own) ∙ here, found_beside mesh ts m apart owns h)

module _ {A F : Type 0} ⦃e : Eq A⦄ (reach : Reach A) (parse_duration : Str → Option ℤ)
    (platform : Platform A F) (panics : Cycle → Bool) where
  -- If Validate accepts a configuration, and no peer of the mesh has a slash in its name, the ingest's
  -- table, the mesh included, has every target of the configuration under its id.
  pub validate-resolves :
      (w : World A)
      → (validate reach parse_duration w.now w.config).0 ≡ none
      → All (λ p. ¬ In b'/' p.name) (peers_of w.health)
      → All
          (λ t. Map.lookup (id t) (known_targets platform panics w) ≡ some t)
          (all_targets w.config)
  unfolding all_targets known_targets
  validate-resolves w h plain =
      let valid = validate-GroupValid reach parse_duration w.now w.config h in
      let mesh = probe-OfMesh platform.addr_string platform.is4 [] w.health in
      found_beside _ (refs w.config.targets) _
        (λ t own. apart_from_mesh (peers_of w.health) [] t _ own plain mesh)
        (refs-Own w.config w.config.targets valid)
        (resolve_finds (refs w.config.targets) [] []
          (validate-Unseen reach parse_duration w.now w.config h))
