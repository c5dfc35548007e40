-- ===== src/Registry.antt =====
-- internal/cluster/master/registry.go: the slaves that have checked in, and which of them owns which
-- health address. A valid netip.Addr is a value of a type `A` with Go's equality, and the zero Addr is
-- `none`. ParseAdvertise, and the parse of the observed remote address, are arguments, for they rest on
-- net/netip. The pins are those that pinsFn returns for the call, and `now` is what time.Now returns.
-- Callbacks are results: whether onChange fires, and the names that onRemove is called with.
pub mod Ownership
pub mod CheckIn
pub mod Sweeping
pub mod Pins
pub mod Ceiling
pub mod Examples
use smokeping_go.Common.{
  ℕ, ◌+◌, Bool, true, false, not, ◌&&◌, ◌||◌, Option, none, some, List, [], ◌∷◌, ◌++◌, map, ltb,
  leb, if◌then◌else◌, Str, bytes, str_eq, str_beq, Eq, ◌==◌, length,
}
use smokeping_go.Common.Map
use smokeping_go.Common.Sort.{sort_by, itself}
use smokeping_go.SlaveHealth.Snapshot.{Peer}
use smokeping_go.Limits.{max_registered_slaves, max_slave_field_len}

pub record SlaveInfo (A : Type 0) : Type 0 where
  pub name : Str
  pub version : Str
  pub addr : Str
  pub last_seen : ℕ
  pub advertise : Option A
  pub warned_long_field : Bool
  pub advertise_log_state : Str

pub record Registry (A : Type 0) : Type 0 where
  pub slaves : List (Str × SlaveInfo A)
  pub by_addr : List (A × Str)
  pub full_warned : Bool

pub data TouchError : Type 0 where
  empty_slave_name slave_field_too_long registry_full : TouchError

pub record Touched (A : Type 0) : Type 0 where
  pub registry : Registry A
  pub error : Option TouchError
  pub changed : Bool

-- What resolveAdvertise leaves: the registry, and the fields of the slave itself.
pub record Resolution (A : Type 0) : Type 0 where
  pub registry : Registry A
  pub log_state : Str
  pub advertise : Option A

pub record Swept (A : Type 0) : Type 0 where
  pub registry : Registry A
  pub removed : List Str
  pub changed : Bool

abbrev pub is_owner : Str → Option Str → Bool
is_owner name none = false
is_owner name (some n) = str_beq n name

abbrev pub log_key : Str → Str → Str
log_key kind advertise = kind ++ b':' ∷ advertise

abbrev pub is_long : Str → Bool
is_long field = ltb max_slave_field_len (length field)

module _ {A : Type 0} ⦃e : Eq A⦄ where
  abbrev pub new_registry : Registry A
  new_registry = record { slaves = []; by_addr = []; full_warned = false }

  abbrev pub new_info : Str → SlaveInfo A
  new_info name = record {
    name = name;
    version = [];
    addr = [];
    last_seen = 0;
    advertise = none;
    warned_long_field = false;
    advertise_log_state = [];
  }

  abbrev pub same_addr : Option A → Option A → Bool
  same_addr none none = true
  same_addr none (some b) = false
  same_addr (some a) none = false
  same_addr (some a) (some b) = a == b

  unfoldable pub pin_admits_in : List (Str × A) → Str → A → Bool
  pin_admits_in pins name addr = elim (Map.lookup name pins) [
    | none ↦ true
    | some pin ↦ pin == addr
  ]

  -- The owner loses the map's entry and its own half of the fact.
  unfoldable pub release : Str → A → Registry A → Registry A
  release owner addr r = record r {
    by_addr = Map.delete addr r.by_addr;
    slaves = elim (Map.lookup owner r.slaves) [
      | none ↦ r.slaves
      | some info ↦
          if same_addr info.advertise (some addr)
          then Map.insert owner (record info { advertise = none }) r.slaves
          else r.slaves
    ];
  }

  -- An owner other than the claimant that the live pins now exclude.
  unfoldable pub release_excluded : List (Str × A) → Str → A → Registry A → Registry A
  unfolding pin_admits_in release
  release_excluded pins name addr r = elim (Map.lookup addr r.by_addr) [
    | none ↦ r
    | some owner ↦
        if not (str_beq owner name)
          && (not (pin_admits_in pins owner addr)
              || (Map.has name pins && not (Map.has owner pins)))
        then release owner addr r
        else r
  ]

  -- `byAddr[addr] == name`, for a valid address
  abbrev pub owns : Str → Option A → List (A × Str) → Bool
  owns name none owners = false
  owns name (some addr) owners = is_owner name (Map.lookup addr owners)

  abbrev pub delete_addr : Option A → List (A × Str) → List (A × Str)
  delete_addr none owners = owners
  delete_addr (some addr) owners = Map.delete addr owners

  abbrev pub claim : Str → Option A → List (A × Str) → List (A × Str)
  claim name none owners = owners
  claim name (some addr) owners = Map.insert addr name owners

  unfoldable pub drop_owned : Str → Option A → List (A × Str) → List (A × Str)
  drop_owned name prev owners = if owns name prev owners then delete_addr prev owners else owners

  -- The ownership of addresses follows the slave from one address to the next.
  unfoldable pub move : Str → Option A → Option A → List (A × Str) → List (A × Str)
  unfolding drop_owned
  move name prev next owners =
      if same_addr next prev then owners else claim name next (drop_owned name prev owners)

  module _ (parse_advertise : Str → Option A) (observed : Str → Option A) where
    abbrev pub matches_observed : Str → A → Bool
    matches_observed remote addr = elim (observed remote) [ none ↦ true | some seen ↦ seen == addr ]

    abbrev pub accept_claim : Str → Str → A → Registry A → Resolution A
    accept_claim advertise remote addr r = record {
      registry = r;
      log_state =
          log_key (if matches_observed remote addr then bytes "ok" else bytes "info") advertise;
      advertise = some addr;
    }

    abbrev pub reject : Str → Str → Registry A → Resolution A
    reject kind advertise r = record {
      registry = r;
      log_state = log_key kind advertise;
      advertise = none;
    }

    -- The claim against the address's owner, once an excluded one has lost it.
    unfoldable pub contest : Registry A → Str → Str → Str → A → Option Str → Resolution A
    contest r name advertise remote addr none = accept_claim advertise remote addr r
    contest r name advertise remote addr (some owner) =
        if str_beq owner name
        then accept_claim advertise remote addr r
        else reject (bytes "dup") advertise r

    -- The claim by what ParseAdvertise made of it. Each log line is written when its key differs from
    -- the state, which then is the key.
    unfoldable pub weigh : List (Str × A) → Registry A → Str → Str → Str → Option A → Resolution A
    unfolding pin_admits_in release_excluded contest
    weigh pins r name advertise remote none = reject (bytes "invalid") advertise r
    weigh pins r name advertise remote (some addr) =
        if not (pin_admits_in pins name addr)
        then reject (bytes "pin") advertise r
        else (let r' = release_excluded pins name addr r in
            contest r' name advertise remote addr (Map.lookup addr r'.by_addr))

    unfoldable pub resolve_advertise : List (Str × A) → Registry A → Str → Str → Str → Resolution A
    unfolding weigh
    resolve_advertise pins r name advertise remote =
        if str_beq advertise []
        then record { registry = r; log_state = []; advertise = none }
        else weigh pins r name advertise remote (parse_advertise advertise)

    -- An over-long claim is not resolved, and leaves no address.
    unfoldable pub resolve_short :
        List (Str × A) → Registry A → Str → Str → Str → Str → Resolution A
    unfolding resolve_advertise
    resolve_short pins r name advertise remote log_state =
        if is_long advertise
        then record { registry = r; log_state = log_state; advertise = none }
        else resolve_advertise pins r name advertise remote

    -- Touch from the slave's entry on.
    unfoldable pub check_in :
        List (Str × A) → ℕ → Registry A → SlaveInfo A → Str → Str → Str → Str → Touched A
    unfolding resolve_short move
    check_in pins now r info name version addr advertise =
        let seen = record info {
          addr = addr;
          last_seen = now;
          version = if is_long version then info.version else version;
        } in
        let entered = record r { slaves = Map.insert name seen r.slaves } in
        let resolved = resolve_short pins entered name advertise addr seen.advertise_log_state in
        let after = resolved.registry in
        let long = is_long version || is_long advertise in
        record {
          registry = record after {
            by_addr = move name info.advertise resolved.advertise after.by_addr;
            slaves =
                Map.insert name
                  (record seen {
                    advertise = resolved.advertise;
                    advertise_log_state = resolved.log_state;
                    warned_long_field = long;
                  })
                  after.slaves;
          };
          error = if long then some slave_field_too_long else none;
          changed = not (same_addr resolved.advertise info.advertise);
        }

    -- Touch by what the registry holds under the name.
    unfoldable pub admit :
        List (Str × A) → ℕ → Registry A → Str → Str → Str → Str → Option (SlaveInfo A) → Touched A
    unfolding check_in
    admit pins now r name version addr advertise (some info) =
        check_in pins now r info name version addr advertise
    admit pins now r name version addr advertise none =
        if is_long version || is_long advertise
        then record { registry = r; error = some slave_field_too_long; changed = false }
        else if leb max_registered_slaves (length r.slaves)
        then record {
          registry = record r { full_warned = true };
          error = some registry_full;
          changed = false;
        }
        else check_in pins now r (new_info name) name version addr advertise

    unfoldable pub touch : List (Str × A) → ℕ → Registry A → Str → Str → Str → Str → Touched A
    unfolding admit
    touch pins now r name version addr advertise =
        if str_beq name []
        then record { registry = r; error = some empty_slave_name; changed = false }
        else admit pins now r name version addr advertise (Map.lookup name r.slaves)

  -- The inversion of the pins, over the names in order: the first name of an address has it.
  unfoldable pub pinned_to : List (Str × A) → List (A × Str)
  pinned_to pins = go (sort_by (λ pin. pin.0) pins) []
    where
      go : List (Str × A) → List (A × Str) → List (A × Str)
      go [] owners = owners
      go ((name, addr) ∷ rest) owners =
          go rest (if Map.has addr owners then owners else Map.insert addr name owners)

  abbrev pub pin_owner_admits : List (A × Str) → Str → A → Bool
  pin_owner_admits owners name addr = elim (Map.lookup addr owners) [
    | none ↦ true
    | some owner ↦ str_beq owner name
  ]

  unfoldable pub eligible :
      List (Str × A) → List (A × Str) → List (Str × SlaveInfo A) → List (Peer A)
  unfolding pin_admits_in
  eligible pins owners [] = []
  eligible pins owners ((n, info) ∷ rest) = elim info.advertise [
    | none ↦ eligible pins owners rest
    | some addr ↦
        if pin_admits_in pins info.name addr && pin_owner_admits owners info.name addr
        then record { name = info.name; addr = some addr } ∷ eligible pins owners rest
        else eligible pins owners rest
  ]

  unfoldable pub peers : List (Str × A) → Registry A → List (Peer A)
  unfolding pinned_to eligible
  peers pins r = sort_by (λ p. p.name) (eligible pins (pinned_to pins) r.slaves)

  unfoldable pub names : Registry A → List Str
  names r = sort_by itself (map (λ entry. entry.0) r.slaves)

  unfoldable pub has : Registry A → Str → Bool
  has r name = Map.has name r.slaves

  unfoldable pub snapshot : Registry A → List (SlaveInfo A)
  snapshot r = sort_by (λ info. info.name) (map (λ entry. entry.1) r.slaves)

  -- One slave that Sweep removes.
  unfoldable pub sweep_one : Str → SlaveInfo A → Swept A → Swept A
  unfolding drop_owned
  sweep_one name info s =
      let r = s.registry in
      record {
        registry = record r {
          by_addr = drop_owned name info.advertise r.by_addr;
          slaves = Map.delete name r.slaves;
        };
        removed = s.removed ++ name ∷ [];
        changed = s.changed || owns name info.advertise r.by_addr;
      }

  -- `LastSeen.Before(now - age)`
  abbrev pub is_gone : ℕ → ℕ → SlaveInfo A → Bool
  is_gone now age info = ltb (info.last_seen + age) now

  unfoldable pub sweep_loop : ℕ → ℕ → List (Str × SlaveInfo A) → Swept A → Swept A
  unfolding sweep_one
  sweep_loop now age [] s = s
  sweep_loop now age ((name, info) ∷ rest) s =
      sweep_loop now age rest (if is_gone now age info then sweep_one name info s else s)

  unfoldable pub sweep : ℕ → ℕ → Registry A → Swept A
  unfolding sweep_loop
  sweep now age r =
      let s =
        sweep_loop now age r.slaves (record { registry = r; removed = []; changed = false }) in
      record s {
        registry = record (s.registry) {
          full_warned =
              if ltb (length s.registry.slaves) max_registered_slaves
              then false
              else s.registry.full_warned;
        };
      }
