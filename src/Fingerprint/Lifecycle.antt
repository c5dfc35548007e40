-- ===== src/Fingerprint/Lifecycle.antt =====
-- internal/scheduler/lifecycle.go: RunLifecycle, which rebuilds the scheduler when its fingerprint
-- changes. The config and the mesh that a wake-up finds, and whether Build succeeds, are its arguments.
use smokeping_go.Common.{
  ◌≡◌, refl, sym, ap, ap₂, ◌≢◌, ◌∙◌, ℤ, ◌↔◌, inl, inr, Bool, true, false, Option, none, some, List,
  [], ◌∷◌, ◌++◌, arith, length, if◌then◌else◌, Bool-cases, Str, str_eq, str_beq, str_beq_iff,
}
use smokeping_go.SlaveHealth.Snapshot.{Snapshot}
use smokeping_go.Config.{Config}
use smokeping_go.Fingerprint.{sep_block, fingerprint, mesh_fingerprint}
use smokeping_go.Fingerprint.Mesh.{AddrText, mesh_fingerprint_injective}
use smokeping_go.Fingerprint.Schedule.{
  NumberText, SameSchedule, SameSchedule-fingerprint, fingerprint_before-SameSchedule,
}

-- The running scheduler by the configuration that Build made it of, the fingerprint that was recorded
-- with it, and the configurations that OnReload and OnRebuilt were called with, the last one first.
pub record Lifecycle : Type 0 where
  pub running : Config
  pub fp : Str
  pub reloaded : List Config
  pub rebuilt : List Config

pub record Wakeup (A : Type 0) : Type 0 where
  pub config : Config
  pub mesh : Snapshot A
  pub builds : Bool

module _ {A : Type 0} (duration_string : ℤ → Str) (itoa : ℤ → Str)
    (addr_string : Option A → Str) where
  -- LifecycleOptions.fingerprint of a master, whose extra fingerprint is the mesh's.
  unfoldable pub full_fingerprint : Config → Snapshot A → Str
  unfolding fingerprint mesh_fingerprint
  full_fingerprint cfg mesh =
      fingerprint duration_string itoa cfg ++ sep_block ∷ mesh_fingerprint addr_string (some mesh)

  -- The first build, which ends the process if it fails.
  unfoldable pub begin : Wakeup A → Option Lifecycle
  unfolding full_fingerprint
  begin w =
      if w.builds
      then some (record {
        running = w.config;
        fp = full_fingerprint w.config w.mesh;
        reloaded = [];
        rebuilt = [];
      })
      else none

  unfoldable pub rebuild : Wakeup A → Lifecycle → Lifecycle
  unfolding full_fingerprint
  rebuild w l =
      if w.builds
      then record l {
        running = w.config;
        fp = full_fingerprint w.config w.mesh;
        rebuilt = w.config ∷ l.rebuilt;
      }
      else l

  unfoldable pub on_wakeup : Wakeup A → Lifecycle → Lifecycle
  unfolding full_fingerprint rebuild
  on_wakeup w l =
      let told = record l { reloaded = w.config ∷ l.reloaded } in
      if str_beq (full_fingerprint w.config w.mesh) l.fp then told else rebuild w told

  unfoldable pub run_lifecycle : List (Wakeup A) → Lifecycle → Lifecycle
  unfolding on_wakeup
  run_lifecycle [] l = l
  run_lifecycle (w ∷ ws) l = run_lifecycle ws (on_wakeup w l)

  -- The recorded fingerprint is that of the running scheduler, with some mesh.
  abbrev Recorded : Lifecycle → Type 0
  Recorded l = (mesh : Snapshot A) × (l.fp ≡ full_fingerprint l.running mesh)

  on_wakeup-Recorded : (w : Wakeup A) (l : Lifecycle) → Recorded l → Recorded (on_wakeup w l)
  unfolding on_wakeup rebuild
  on_wakeup-Recorded w l h = elim (Bool-cases (str_beq (full_fingerprint w.config w.mesh) l.fp)) [
    | inl same ↦ rw same h
    | inr new ↦ elim (Bool-cases w.builds) [
      | inl built ↦ rw (new, built) (w.mesh, refl)
      | inr failed ↦ rw (new, failed) h
    ]
  ]

  run_lifecycle-Recorded :
      (ws : List (Wakeup A)) (l : Lifecycle) → Recorded l → Recorded (run_lifecycle ws l)
  unfolding run_lifecycle
  run_lifecycle-Recorded [] l h = h
  run_lifecycle-Recorded (w ∷ ws) l h =
      run_lifecycle-Recorded ws (on_wakeup w l) (on_wakeup-Recorded w l h)

  SameSchedule-refl : (c : Config) → SameSchedule duration_string itoa c c
  SameSchedule-refl c = record {
    intervals = refl;
    pings = refl;
    sources = refl;
    probes = refl;
    groups = refl;
  }

  matched :
      (w : Wakeup A) (l : Lifecycle)
      → str_beq (full_fingerprint w.config w.mesh) l.fp ≡ true
      → full_fingerprint w.config w.mesh ≡ l.fp
  matched w l same = (str_beq_iff (full_fingerprint w.config w.mesh) l.fp).0 same

  told_apart :
      (c d : Config) (m n : Snapshot A)
      → NumberText duration_string itoa
      → AddrText addr_string
      → full_fingerprint c m ≡ full_fingerprint d n
      → SameSchedule duration_string itoa c d × (m ≡ n)
  unfolding full_fingerprint
  told_apart c d m n numbers addrs h =
      let (same, rest) =
        fingerprint_before-SameSchedule duration_string itoa c d
          (mesh_fingerprint addr_string (some m)) (mesh_fingerprint addr_string (some n)) numbers
          h in
      (same, mesh_fingerprint_injective addr_string m n addrs rest)

  same_text :
      (c d : Config) (m n : Snapshot A)
      → SameSchedule duration_string itoa c d
      → m ≡ n
      → full_fingerprint c m ≡ full_fingerprint d n
  unfolding full_fingerprint
  same_text c d m n same meshes =
      ap₂ (λ f s. f ++ sep_block ∷ mesh_fingerprint addr_string (some s))
        (SameSchedule-fingerprint duration_string itoa c d same) meshes

  longer : {B : Type 0} (x : B) (xs : List B) → x ∷ xs ≢ xs
  longer x xs h = let e = ap length h in omega (arith, e)

  -- If the texts of numbers and addresses tell them apart and hold no separator: on a wake-up whose
  -- Build would succeed, the scheduler that runs, recorded with a mesh, stays exactly if neither the
  -- schedule of the configuration nor the mesh changed.
  pub restarts_iff :
      (w : Wakeup A) (l : Lifecycle) (mesh : Snapshot A)
      → NumberText duration_string itoa
      → AddrText addr_string
      → l.fp ≡ full_fingerprint l.running mesh
      → w.builds ≡ true
      → ((on_wakeup w l).rebuilt ≡ l.rebuilt)
        ↔ (SameSchedule duration_string itoa w.config l.running × (w.mesh ≡ mesh))
  unfolding on_wakeup rebuild
  restarts_iff w l mesh numbers addrs recorded built =
      elim (Bool-cases (str_beq (full_fingerprint w.config w.mesh) l.fp)) [
        | inl same ↦ rw same (
          λ e.
              told_apart w.config l.running w.mesh mesh numbers addrs (matched w l same ∙ recorded),
          λ e. refl,
        )
        | inr new ↦
            rw (new, built)
              (
                λ e. absurd (longer w.config l.rebuilt e),
                λ (same, meshes). absurd (changed new same meshes),
              )
      ]
    where
      changed :
          str_beq (full_fingerprint w.config w.mesh) l.fp ≡ false
          → SameSchedule duration_string itoa w.config l.running
          → w.mesh ≡ mesh
          → ⊥
      changed new same meshes =
          let e =
            (str_beq_iff (full_fingerprint w.config w.mesh) l.fp).1
              (same_text w.config l.running w.mesh mesh same meshes ∙ sym recorded) in
          ground (arith, e, new)

  -- If the texts of numbers and addresses tell them apart and hold no separator: after any wake-ups
  -- from a first build on, those whose Build failed included, one whose Build succeeds leaves a
  -- scheduler that runs the current configuration's schedule, with its fingerprint recorded.
  pub wakeup_catches_up :
      (first w : Wakeup A) (ws : List (Wakeup A)) (l : Lifecycle)
      → NumberText duration_string itoa
      → AddrText addr_string
      → begin first ≡ some l
      → w.builds ≡ true
      → let now = on_wakeup w (run_lifecycle ws l) in
        SameSchedule duration_string itoa w.config now.running
        × (now.fp ≡ full_fingerprint w.config w.mesh)
  unfolding begin on_wakeup rebuild
  wakeup_catches_up first w ws l numbers addrs begun built =
      let then_running = run_lifecycle ws l in
      let (mesh, recorded) = run_lifecycle-Recorded ws l started in
      elim (Bool-cases (str_beq (full_fingerprint w.config w.mesh) then_running.fp)) [
        | inl same ↦ rw same (
          (told_apart w.config then_running.running w.mesh mesh numbers addrs
              (matched w then_running same ∙ recorded)).0,
          sym (matched w then_running same),
        )
        | inr new ↦ rw (new, built) (SameSchedule-refl w.config, refl)
      ]
    where
      started : Recorded l
      started = elim (Bool-cases first.builds) [
        | inl ok ↦ (first.mesh, cc)
        | inr failed ↦ absurd (ground (arith, failed, begun))
      ]
