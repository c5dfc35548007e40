-- ===== src/Server/Schedules.antt =====
-- internal/cluster/master/config.go: which targets a slave and the master's own scheduler get. The
-- grouping does not matter to it: the lists are compared as targets in order.
use smokeping_go.Common.{
  ◌≡◌, refl, sym, ap, ap₂, ◌∙◌, inl, inr, append-nil, keep-append, Bool, not, Option, List, [], ◌∷◌,
  ◌++◌, map, append_assoc, Bool-cases, Str, keep, All, true, false, ◌↔◌, ◌⊎◌, In, arith, str_beq,
  str_beq_iff, if◌then◌else◌, str_eq,
}
use smokeping_go.Cycle.{Target, TargetRef}
use smokeping_go.SlaveHealth.Snapshot
use smokeping_go.SlaveHealth.Snapshot.{Group}
use smokeping_go.Config.{Config, refs, refs_of}
use smokeping_go.Config.Mesh.{peers_of, OfMesh, probe-OfMesh}
use smokeping_go.Server.Serving.{
  ClusterConfigResp, assigned, contains, target_visible_to_slave, sanitize_target, with_targets,
  visible_groups, sanitized, local_groups, with_mesh, with_local_mesh, build_cluster_config,
  local_targets,
}

abbrev pub sanitize_ref : TargetRef → TargetRef
sanitize_ref r = record r { target = sanitize_target r.target }

-- A target as the wire has it, of which no alerts and no slaves leave the master.
abbrev pub bare_ref : TargetRef → TargetRef
bare_ref r = record r { target = record r.target { alerts = []; slaves = [] } }

abbrev pub visible : Str → TargetRef → Bool
visible name r = target_visible_to_slave name r.target

contains_iff : (name : Str) (ns : List Str) → (contains name ns ≡ true) ↔ In name ns
unfolding contains
contains_iff name [] = (λ h. ground (arith, h), λ i. elim i [ ])
contains_iff name (n ∷ ns) = elim (Bool-cases (str_beq n name)) [
  | inl here ↦ rw here (λ _. inl (sym ((str_beq_iff n name).0 here)), λ _. refl)
  | inr other ↦ rw other (
    λ h. inr ((contains_iff name ns).0 h),
    λ i. elim i [
      | inl e ↦ let h = (str_beq_iff n name).1 (sym e) in absurd (ground (arith, h, other))
      | inr i ↦ (contains_iff name ns).1 i
    ],
  )
]

-- A target without slaves is everyone's; another is of the slaves that it lists.
visible_iff :
    (name : Str) (t : Target)
    → (target_visible_to_slave name t ≡ true) ↔ ((t.slaves ≡ []) ⊎ In name t.slaves)
unfolding target_visible_to_slave
visible_iff name t = listed t.slaves
  where
    listed :
        (ns : List Str)
        → ((if not (elim ns [ [] ↦ false | _ ∷ _ ↦ true ]) then true else contains name ns) ≡ true)
          ↔ ((ns ≡ []) ⊎ In name ns)
    listed [] = (λ _. inl refl, λ _. refl)
    listed (n ∷ ns) = (
      λ h. inr ((contains_iff name (n ∷ ns)).0 h),
      λ i. elim i [ inl e ↦ absurd (ground (arith, e)) | inr i ↦ (contains_iff name (n ∷ ns)).1 i ],
    )

refs-with_targets :
    (g : Group) (ts : List Target) (rest : List Group)
    → refs (with_targets g ts rest) ≡ refs_of g.group ts ++ refs rest
unfolding refs
refs-with_targets g [] rest = refl
refs-with_targets g (t ∷ ts) rest = refl

map-append :
    (f : TargetRef → TargetRef) (xs ys : List TargetRef) → map f (xs ++ ys) ≡ map f xs ++ map f ys
map-append f [] ys = refl
map-append f (x ∷ xs) ys = ap (◌∷◌ (f x)) (map-append f xs ys)

refs_of-visible :
    (name group : Str) (ts : List Target)
    → refs_of group (map sanitize_target (keep (target_visible_to_slave name) ts))
      ≡ map sanitize_ref (keep (visible name) (refs_of group ts))
refs_of-visible name group [] = refl
refs_of-visible name group (t ∷ ts) = elim (Bool-cases (target_visible_to_slave name t)) [
  | inl shown ↦ rw shown (
      ap (◌∷◌ (record { group = group; target = sanitize_target t }))
        (refs_of-visible name group ts))
  | inr hidden ↦ rw hidden (refs_of-visible name group ts)
]

refs_of-keep :
    (p : Target → Bool) (group : Str) (ts : List Target)
    → refs_of group (keep p ts) ≡ keep (λ r. p r.target) (refs_of group ts)
refs_of-keep p group [] = refl
refs_of-keep p group (t ∷ ts) = elim (Bool-cases (p t)) [
  | inl stays ↦ rw stays (ap (◌∷◌ (record { group = group; target = t })) (refs_of-keep p group ts))
  | inr goes ↦ rw goes (refs_of-keep p group ts)
]

refs_of-sanitize :
    (group : Str) (ts : List Target)
    → refs_of group (map sanitize_target ts) ≡ map sanitize_ref (refs_of group ts)
refs_of-sanitize group [] = refl
refs_of-sanitize group (t ∷ ts) =
    ap (◌∷◌ (record { group = group; target = sanitize_target t })) (refs_of-sanitize group ts)

refs-append : (gs hs : List Group) → refs (gs ++ hs) ≡ refs gs ++ refs hs
unfolding refs
refs-append [] hs = refl
refs-append (g ∷ gs) hs =
    ap (λ rs. refs_of g.group g.targets ++ rs) (refs-append gs hs)
    ∙ sym (append_assoc (refs_of g.group g.targets) (refs gs) (refs hs))

refs-visible :
    (name : Str) (gs : List Group)
    → refs (visible_groups name gs) ≡ map sanitize_ref (keep (visible name) (refs gs))
unfolding refs visible_groups
refs-visible name [] = refl
refs-visible name (g ∷ gs) =
    let here = refs_of g.group g.targets in
    refs-with_targets g _ (visible_groups name gs)
    ∙ ap₂ (λ xs ys. xs ++ ys) (refs_of-visible name g.group g.targets) (refs-visible name gs)
    ∙ sym (
        ap (map sanitize_ref) (keep-append (visible name) here (refs gs))
        ∙ map-append sanitize_ref (keep (visible name) here) (keep (visible name) (refs gs)))

refs-local :
    (gs : List Group) → refs (local_groups gs) ≡ keep (λ r. not (assigned r.target)) (refs gs)
unfolding refs local_groups
refs-local [] = refl
refs-local (g ∷ gs) =
    refs-with_targets g _ (local_groups gs)
    ∙ ap₂ (λ xs ys. xs ++ ys) (refs_of-keep _ g.group g.targets) (refs-local gs)
    ∙ sym (keep-append _ (refs_of g.group g.targets) (refs gs))

refs-sanitized : (gs : List Group) → refs (sanitized gs) ≡ map sanitize_ref (refs gs)
unfolding refs sanitized
refs-sanitized [] = refl
refs-sanitized (g ∷ gs) =
    ap₂ (λ xs ys. xs ++ ys) (refs_of-sanitize g.group g.targets) (refs-sanitized gs)
    ∙ sym (map-append sanitize_ref (refs_of g.group g.targets) (refs gs))

module _ {A : Type 0} (addr_string : Option A → Str) (is4 : A → Bool) where
  with_mesh-targets :
      (cfg : Config) (mesh : List Group) (resp : ClusterConfigResp)
      → (with_mesh addr_string is4 cfg mesh resp).targets ≡ resp.targets ++ sanitized mesh
  unfolding with_mesh sanitized
  with_mesh-targets cfg [] resp = sym (append-nil resp.targets)
  with_mesh-targets cfg (g ∷ gs) resp = refl

  with_local_mesh-targets :
      (mesh : List Group) (cfg : Config)
      → (with_local_mesh addr_string is4 mesh cfg).targets ≡ cfg.targets ++ mesh
  unfolding with_local_mesh
  with_local_mesh-targets [] cfg = sym (append-nil cfg.targets)
  with_local_mesh-targets (g ∷ gs) cfg = refl

  refs-served :
      (cfg : Config) (name : Str) (health : Option (Snapshot.Snapshot A))
      → refs (build_cluster_config addr_string is4 cfg name health).targets
        ≡ map sanitize_ref (
            keep (visible name) (refs cfg.targets)
            ++ refs (Snapshot.probe addr_string is4 health name))
  unfolding build_cluster_config
  refs-served cfg name health =
      let mesh = Snapshot.probe addr_string is4 health name in
      let shown = keep (visible name) (refs cfg.targets) in
      ap refs (with_mesh-targets cfg mesh _)
      ∙ refs-append (visible_groups name cfg.targets) (sanitized mesh)
      ∙ ap₂ (λ xs ys. xs ++ ys) (refs-visible name cfg.targets) (refs-sanitized mesh)
      ∙ sym (map-append sanitize_ref shown (refs mesh))

  -- What a slave is served: the targets of the configuration for which `shown` says yes, which it does
  -- of those that list no slaves and those that list this one, and then the mesh's, of other peers.
  pub record ServedTo (cfg : Config) (name : Str) (health : Option (Snapshot.Snapshot A))
      : Type 0 where
    pub shown : TargetRef → Bool
    pub shown_iff :
        (r : TargetRef) → (shown r ≡ true) ↔ ((r.target.slaves ≡ []) ⊎ In name r.target.slaves)
    pub targets :
        refs (build_cluster_config addr_string is4 cfg name health).targets
        ≡ map bare_ref
            (keep shown (refs cfg.targets) ++ refs (Snapshot.probe addr_string is4 health name))
    pub mesh :
        All (OfMesh name (peers_of health)) (refs (Snapshot.probe addr_string is4 health name))

  -- A slave is served, in order, exactly the targets that list no slaves or list it among theirs, then
  -- the mesh's, which are of peers other than itself, each without its alerts and its slaves.
  pub served_refs :
      (cfg : Config) (name : Str) (health : Option (Snapshot.Snapshot A)) → ServedTo cfg name health
  unfolding sanitize_target
  served_refs cfg name health = record {
    shown = visible name;
    shown_iff = λ r. visible_iff name r.target;
    targets = refs-served cfg name health;
    mesh = probe-OfMesh addr_string is4 name health;
  }

  -- The master probes, in order, the targets that no slave is assigned, then the whole mesh.
  pub local_refs :
      (cfg : Config) (health : Option (Snapshot.Snapshot A))
      → refs (local_targets addr_string is4 cfg health).targets
        ≡ keep (λ r. not (assigned r.target)) (refs cfg.targets)
          ++ refs (Snapshot.probe addr_string is4 health [])
  unfolding local_targets
  local_refs cfg health =
      let mesh = Snapshot.probe addr_string is4 health [] in
      ap refs (with_local_mesh-targets mesh _)
      ∙ refs-append (local_groups cfg.targets) mesh
      ∙ ap (λ xs. xs ++ refs mesh) (refs-local cfg.targets)
