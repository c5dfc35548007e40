-- ===== src/SlaveHealth/Snapshot.antt =====
-- internal/slavehealth/slavehealth.go: Set, whose Probe view has the addresses and whose Public view
-- has none. Of net/netip it takes Addr's String and Is4 as arguments; the zero Addr is `none`, and so
-- is the nil Set.
use smokeping_go.Common.{
  ℕ, ◌*◌, Bool, not, Option, none, some, List, [], ◌∷◌, nat_beq, if◌then◌else◌, Str, bytes, str_beq,
  str_ltb,
}
use smokeping_go.Cycle.{Target, TargetRef}
use smokeping_go.SlaveHealth.{health_group, probe_name}

pub record Peer (A : Type 0) : Type 0 where
  pub name : Str
  pub addr : Option A

pub record Snapshot (A : Type 0) : Type 0 where
  pub peers : List (Peer A)
  pub alerts : List Str

pub record Group : Type 0 where
  pub group : Str
  pub title : Str
  pub targets : List Target

abbrev pub default_timeout : ℕ
default_timeout = 2 * 1000000000

-- config.Probe, the fields that ProbeDef sets; a timeout that is not positive is 0.
pub record ProbeDef : Type 0 where
  pub type : Str
  pub timeout : ℕ
  pub no_trace : Bool

unfoldable pub probe_def : ℕ → Bool → ProbeDef
probe_def timeout hops = record {
  type = bytes "icmp";
  timeout = if nat_beq timeout 0 then default_timeout else timeout;
  no_trace = not hops;
}

abbrev pub one_group : List Target → List Group
one_group [] = []
one_group (t ∷ ts) = record { group = health_group; title = bytes "Slaves"; targets = t ∷ ts } ∷ []

abbrev pub public_ref : List Str → Str → TargetRef
public_ref alerts name = record {
  group = health_group;
  target = record {
    name = name;
    title = name;
    host = [];
    url = [];
    probe = probe_name;
    alerts = alerts;
    family = [];
    slaves = [];
  };
}

module _ {A : Type 0} (addr_string : Option A → Str) (is4 : A → Bool) where
  abbrev pub before : Peer A → Peer A → Bool
  before p q =
      if str_beq p.name q.name
      then str_ltb (addr_string p.addr) (addr_string q.addr)
      else str_ltb p.name q.name

  unfoldable pub insert_peer : Peer A → List (Peer A) → List (Peer A)
  insert_peer p [] = p ∷ []
  insert_peer p (q ∷ qs) = if before p q then p ∷ q ∷ qs else q ∷ insert_peer p qs

  unfoldable pub sort_peers : List (Peer A) → List (Peer A)
  unfolding insert_peer
  sort_peers [] = []
  sort_peers (p ∷ ps) = insert_peer p (sort_peers ps)

  unfoldable pub new_set : List (Peer A) → List Str → Snapshot A
  unfolding sort_peers
  new_set peers alerts = record { peers = sort_peers peers; alerts = alerts }

  abbrev pub family_of : A → Str
  family_of a = if is4 a then bytes "v4" else bytes "v6"

  abbrev pub probe_target : List Str → Str → A → Target
  probe_target alerts name a = record {
    name = name;
    title = name;
    host = addr_string (some a);
    url = [];
    probe = probe_name;
    alerts = alerts;
    family = family_of a;
    slaves = [];
  }

  -- The omitted peer, and the peers without an address, have no target.
  unfoldable pub probe_targets : List Str → Str → List (Peer A) → List Target
  probe_targets alerts exclude [] = []
  probe_targets alerts exclude (p ∷ ps) = elim p.addr [
    | none ↦ probe_targets alerts exclude ps
    | some a ↦
        if str_beq p.name exclude
        then probe_targets alerts exclude ps
        else probe_target alerts p.name a ∷ probe_targets alerts exclude ps
  ]

  unfoldable pub probe : Option (Snapshot A) → Str → List Group
  unfolding probe_targets
  probe none exclude = []
  probe (some s) exclude = one_group (probe_targets s.alerts exclude s.peers)

  unfoldable pub public_refs : List Str → List (Peer A) → List TargetRef
  public_refs alerts [] = []
  public_refs alerts (p ∷ ps) = elim p.addr [
    | none ↦ public_refs alerts ps
    | some a ↦ public_ref alerts p.name ∷ public_refs alerts ps
  ]

  unfoldable pub public : Option (Snapshot A) → List TargetRef
  unfolding public_refs
  public none = []
  public (some s) = public_refs s.alerts s.peers
