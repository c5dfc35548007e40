-- ===== src/SlaveHealth/Examples.antt =====
-- A set of two peers, one of them without an address.
use smokeping_go.Common.{
  ℕ, ◌≡◌, refl, Bool, true, Option, none, some, [], ◌∷◌, ◌++◌, map, bytes, Str,
}
use smokeping_go.SlaveHealth.Snapshot.{Snapshot, probe, public}
use smokeping_go.SlaveHealth.Views.{hidden, targets_of, public_is_hidden_probe}

-- An address is the last number of one of a documentation network.
abbrev addr_string : Option ℕ → Str
addr_string none = bytes "invalid IP"
addr_string (some n) = bytes "192.0.2." ++ n ∷ []

abbrev is4 : ℕ → Bool
is4 n = true

abbrev two_peers : Snapshot ℕ
two_peers = record {
  peers =
      record { name = bytes "a"; addr = some b'7' } ∷ record { name = bytes "b"; addr = none } ∷ [];
  alerts = bytes "down" ∷ [];
}

public_is_hidden_probe_example :
    public addr_string is4 (some two_peers)
    ≡ map hidden (targets_of (probe addr_string is4 (some two_peers) []))
public_is_hidden_probe_example = public_is_hidden_probe addr_string is4 two_peers (refl, (refl, tt))
