-- ===== src/Registry/Examples.antt =====
-- Two slaves that claim one address, and a sweep.
use smokeping_go.Common.{ℕ, Option, none, some, [], ◌∷◌, bytes, Str, str_eq, nat_eq, arith}
use smokeping_go.Common.Map
use smokeping_go.Common.Map.{IsMap}
use smokeping_go.Registry.{Registry, new_registry, touch}
use smokeping_go.Registry.Ownership.{Owned}
use smokeping_go.Registry.CheckIn.{touch_keeps_ownership}

-- An address is a number, read from one character.
abbrev parse : Str → Option ℕ
parse [] = none
parse (c ∷ s) = some c

new_registry-Owned : Owned {A = ℕ} new_registry
unfolding Map.lookup
new_registry-Owned = record {
  owner_advertises = λ a n h. absurd (ground (arith, h));
  advertiser_owns = λ a n h. absurd (ground (arith, h));
}

abbrev first : Registry ℕ
first =
    (touch parse parse [] 5 new_registry (bytes "a") (bytes "v1") (bytes "1") (bytes "1")).registry

first-Owned : Owned first
first-Owned =
    touch_keeps_ownership parse parse [] 5 new_registry (bytes "a") (bytes "v1") (bytes "1")
      (bytes "1") new_registry-Owned

touch_keeps_ownership_example :
    Owned
      (touch parse parse
        ((bytes "b", b'1') ∷ [])
        6
        first
        (bytes "b")
        (bytes "v1")
        (bytes "1")
        (bytes "1")).registry
touch_keeps_ownership_example =
    touch_keeps_ownership parse parse ((bytes "b", b'1') ∷ []) 6 first (bytes "b") (bytes "v1")
      (bytes "1") (bytes "1") first-Owned
