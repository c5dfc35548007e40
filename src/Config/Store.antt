-- ===== src/Config/Store.antt =====
-- internal/config/reload.go: the store of the current configuration. A reload is given what
-- loadUnvalidated makes of the file; the subscriber's channel is its capacity and the signals in it.
use smokeping_go.Common.{
  ℕ, suc, ◌⊎◌, inl, inr, ℤ, Bool, true, Option, none, some, ltb, if◌then◌else◌, Str, Eq,
}
use smokeping_go.Config.{Config}
use smokeping_go.Config.Addresses.{Reach}
use smokeping_go.Config.Storage.{ConfigError}
use smokeping_go.Config.Validate.{validate}

pub data LoadError : Type 0 where
  unread : LoadError
  invalid : ConfigError → LoadError
  not_applicable : LoadError  -- the validator's

pub record Channel : Type 0 where
  pub cap : ℕ
  pub queued : ℕ

pub record Store : Type 0 where
  pub current : Config
  pub sub : Option Channel
  pub validator : Option (Config → Bool)

abbrev pub new_store : Config → Store
new_store initial = record { current = initial; sub = none; validator = none }

-- It panics, which is `none`, if there is a subscriber.
unfoldable pub subscribe : Channel → Store → Option Store
subscribe ch s = elim s.sub [ none ↦ some (record s { sub = some ch }) | some old ↦ none ]

unfoldable pub set_validator : (Config → Bool) → Store → Store
set_validator ok s = record s { validator = some ok }

-- The send that does not block: a channel that is full keeps the signal that it has.
abbrev pub signal : Option Channel → Option Channel
signal none = none
signal (some ch) = some (if ltb ch.queued ch.cap then record ch { queued = suc ch.queued } else ch)

abbrev pub applicable : Option (Config → Bool) → Config → Bool
applicable none c = true
applicable (some ok) c = ok c

module _ {A : Type 0} ⦃e : Eq A⦄ (reach : Reach A) (parse_duration : Str → Option ℤ) where
  abbrev pub accept : Option ConfigError × Config → LoadError ⊎ Config
  accept (none, c) = inr c
  accept (some err, c) = inl (invalid err)

  -- Load, from what loadUnvalidated returned.
  unfoldable pub load : ℕ → LoadError ⊎ Config → LoadError ⊎ Config
  unfolding validate
  load now (inl err) = inl err
  load now (inr raw) = accept (validate reach parse_duration now raw)

  -- What Reload does with what Load returned.
  unfoldable pub publish : LoadError ⊎ Config → Store → Option LoadError × Store
  publish (inl err) s = (some err, s)
  publish (inr cfg) s =
      if applicable s.validator cfg
      then (none, record s { current = cfg; sub = signal s.sub })
      else (some not_applicable, s)

  unfoldable pub reload : ℕ → LoadError ⊎ Config → Store → Option LoadError × Store
  unfolding load publish
  reload now raw s = publish (load now raw) s
