-- ===== src/Config/Reloads.antt =====
-- internal/config/reload.go: reloads and the wake-ups of the subscriber, in any order. A wake-up takes a
-- signal, if there is one, and reads the current configuration.
use smokeping_go.Common.{
  ℕ, ◌-◌, ◌<◌, ◌≡◌, refl, sym, ap, ◌∙◌, ◌⊎◌, inl, inr, ℤ, Bool, true, false, Option, none, some,
  List, [], ◌∷◌, arith, ltb, if◌then◌else◌, if_elim, Bool-cases, Str, Eq,
}
use smokeping_go.Config.{Config}
use smokeping_go.Config.Addresses.{Reach}
use smokeping_go.Config.Storage.{ConfigError}
use smokeping_go.Config.Validate.{validate}
use smokeping_go.Config.Store.{
  LoadError, Channel, Store, signal, applicable, accept, load, publish, reload,
}

-- The subscriber's view: the configuration that it read last.
pub record Watched : Type 0 where
  pub store : Store
  pub seen : Config

pub data Event : Type 0 where
  reloading : ℕ → LoadError ⊎ Config → Event
  waking : Event

abbrev pub take_signal : Channel → Watched → Watched
take_signal ch w =
    if ltb 0 ch.queued
    then record {
      store = record (w.store) { sub = some (record ch { queued = ch.queued - 1 }) };
      seen = w.store.current;
    }
    else w

abbrev pub wake_by : Option Channel → Watched → Watched
wake_by none w = w
wake_by (some ch) w = take_signal ch w

unfoldable pub wake : Watched → Watched
wake w = wake_by w.store.sub w

abbrev pub watching : Store → Watched
watching s = record { store = s; seen = s.current }

-- A signal waits, or the subscriber has read the current configuration.
abbrev Awake : Option Channel → Config → Config → Type 0
Awake none seen current = ⊥
Awake (some ch) seen current = (0 < ch.cap) × ((0 < ch.queued) ⊎ (seen ≡ current))

module _ {A : Type 0} ⦃e : Eq A⦄ (reach : Reach A) (parse_duration : Str → Option ℤ) where
  unfoldable pub step : Watched → Event → Watched
  unfolding reload wake
  step w (reloading now raw) = record w { store = (reload reach parse_duration now raw w.store).1 }
  step w waking = wake w

  unfoldable pub run : Watched → List Event → Watched
  unfolding step
  run w [] = w
  run w (x ∷ xs) = run (step w x) xs

  -- Served: the configuration is the first one, or Validate made it of some file and the validator
  -- passed it.
  pub data Served (ok : Option (Config → Bool)) (initial : Config) : Config → Type 0 where
    first : Served ok initial initial
    reloaded :
        (now : ℕ) (raw c : Config)
        → validate reach parse_duration now raw ≡ (none, c)
        → applicable ok c ≡ true
        → Served ok initial c

  abbrev Kept : Option (Config → Bool) → Config → Store → Type 0
  Kept ok initial s = (s.validator ≡ ok) × Served ok initial s.current

  publish-Kept :
      (ok : Option (Config → Bool)) (initial raw : Config) (now : ℕ)
      (v : Option ConfigError × Config) (s : Store)
      → validate reach parse_duration now raw ≡ v
      → Kept ok initial s
      → Kept ok initial (publish reach parse_duration (accept reach parse_duration v) s).1
  unfolding publish
  publish-Kept ok initial raw now (some err, c) s same kept = kept
  publish-Kept ok initial raw now (none, c) s same (own, served) =
      elim (Bool-cases (applicable s.validator c)) [
        | inl good ↦
            let good' : applicable ok c ≡ true = ap (λ o. applicable o c) (sym own) ∙ good in
            rw (good, publish) (own, reloaded now raw c same good')
        | inr bad ↦ rw (bad, publish) (own, served)
      ]

  reload-Kept :
      (ok : Option (Config → Bool)) (initial : Config) (now : ℕ) (raw : LoadError ⊎ Config)
      (s : Store)
      → Kept ok initial s
      → Kept ok initial (reload reach parse_duration now raw s).1
  unfolding reload load publish
  reload-Kept ok initial now (inl err) s kept = kept
  reload-Kept ok initial now (inr raw) s kept =
      publish-Kept ok initial raw now (validate reach parse_duration now raw) s refl kept

  take_signal-store :
      (ok : Option (Config → Bool)) (initial : Config) (ch : Channel) (w : Watched)
      → Kept ok initial w.store
      → Kept ok initial (take_signal ch w).store
  take_signal-store ok initial ch w kept =
      if_elim (λ (v : Watched). Kept ok initial v.store) (ltb 0 ch.queued) _ _ kept kept

  wake_by-Kept :
      (ok : Option (Config → Bool)) (initial : Config) (o : Option Channel) (w : Watched)
      → Kept ok initial w.store
      → Kept ok initial (wake_by o w).store
  wake_by-Kept ok initial none w kept = kept
  wake_by-Kept ok initial (some ch) w kept = take_signal-store ok initial ch w kept

  run-Kept :
      (ok : Option (Config → Bool)) (initial : Config) (xs : List Event) (w : Watched)
      → Kept ok initial w.store
      → Kept ok initial (run w xs).store
  unfolding run step wake
  run-Kept ok initial [] w kept = kept
  run-Kept ok initial (reloading now raw ∷ xs) w kept =
      run-Kept ok initial xs _ (reload-Kept ok initial now raw w.store kept)
  run-Kept ok initial (waking ∷ xs) w kept =
      run-Kept ok initial xs (wake w) (wake_by-Kept ok initial w.store.sub w kept)

  -- Whatever is reloaded and whenever the subscriber wakes, the current configuration is the one that the
  -- store was made with, or one that Validate accepted and the installed validator passed.
  pub current-Served :
      (ok : Option (Config → Bool)) (initial : Config) (sub : Option Channel) (xs : List Event)
      → let s : Store = record { current = initial; sub = sub; validator = ok } in
        Served ok initial (run (watching s) xs).store.current
  current-Served ok initial sub xs = (run-Kept ok initial xs _ (refl, first)).1

  abbrev Watches : Watched → Type 0
  Watches w = Awake w.store.sub w.seen w.store.current

  signal-Awake :
      (o : Option Channel) (seen old new : Config) → Awake o seen old → Awake (signal o) seen new
  signal-Awake none seen old new a = a
  signal-Awake (some ch) seen old new (room, a) = elim (Bool-cases (ltb ch.queued ch.cap)) [
    | inl free ↦ rw free (room, inl (omega arith))
    | inr full ↦ rw full (room, inl (ground (arith, full, room)))
  ]

  publish-Awake :
      (loaded : LoadError ⊎ Config) (s : Store) (seen : Config)
      → Awake s.sub seen s.current
      → let s' = (publish reach parse_duration loaded s).1 in Awake s'.sub seen s'.current
  unfolding publish
  publish-Awake (inl err) s seen a = a
  publish-Awake (inr c) s seen a =
      if_elim (λ (t : Option LoadError × Store). Awake t.1.sub seen t.1.current)
        (applicable s.validator c) _ _ (signal-Awake s.sub seen s.current c a) a

  take_signal-Awake :
      (ch : Channel) (w : Watched)
      → w.store.sub ≡ some ch
      → Watches w
      → ((take_signal ch w).seen ≡ (take_signal ch w).store.current) × Watches (take_signal ch w)
  take_signal-Awake ch w there a =
      let a' : Awake (some ch) w.seen w.store.current = rw there at a in
      elim (Bool-cases (ltb 0 ch.queued)) [
        | inl some_signal ↦ rw some_signal (refl, (a'.0, inr refl))
        | inr empty ↦ rw empty (current a'.1 empty, a)
      ]
    where
      current :
          (0 < ch.queued) ⊎ (w.seen ≡ w.store.current)
          → ltb 0 ch.queued ≡ false
          → w.seen ≡ w.store.current
      current (inl waits) e = absurd (ground (arith, waits, e))
      current (inr same) e = same

  wake_by-current :
      (o : Option Channel) (w : Watched)
      → w.store.sub ≡ o
      → Watches w
      → ((wake_by o w).seen ≡ (wake_by o w).store.current) × Watches (wake_by o w)
  wake_by-current none w there a = let a' : ⊥ = rw there at a in absurd a'
  wake_by-current (some ch) w there a = take_signal-Awake ch w there a

  wake-current :
      (w : Watched) → Watches w → ((wake w).seen ≡ (wake w).store.current) × Watches (wake w)
  unfolding wake
  wake-current w a = wake_by-current w.store.sub w refl a

  run-Watches : (xs : List Event) (w : Watched) → Watches w → Watches (run w xs)
  unfolding run step reload
  run-Watches [] w a = a
  run-Watches (reloading now raw ∷ xs) w a =
      run-Watches xs _ (publish-Awake (load reach parse_duration now raw) w.store w.seen a)
  run-Watches (waking ∷ xs) w a = run-Watches xs (wake w) (wake-current w a).1

  -- No reload is lost on a subscriber whose channel has room for a signal and that started on the
  -- current configuration: after any history, one wake-up more and it has read the current
  -- configuration, even if signals were dropped because the channel was full.
  pub wake_catches_up :
      (w : Watched) (ch : Channel) (xs : List Event)
      → w.store.sub ≡ some ch
      → 0 < ch.cap
      → w.seen ≡ w.store.current
      → let last = wake (run w xs) in last.seen ≡ last.store.current
  wake_catches_up w ch xs there room same =
      (wake-current (run w xs) (run-Watches xs w (rw there (room, inr same)))).0
