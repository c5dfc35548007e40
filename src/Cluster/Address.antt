-- ===== src/Cluster/Address.antt =====
-- internal/cluster/protocol.go: the one reading of a hop address that a slave supplies, which validate
-- refuses on and ToCycle stores. Of net/netip it takes ParseAddr, Zone and String.
use smokeping_go.Common.{
  ℕ, ◌+◌, ◌*◌, Bool, true, false, not, ◌&&◌, ◌||◌, Option, none, some, [], ◌∷◌, ltb, nat_beq,
  if◌then◌else◌, Str, str_beq, length, ◌>>=◌,
}

-- net/netip's Addr: only a valid one is a value of `A`.
pub record Netip (A : Type 0) : Type 0 where
  pub parse_addr : Str → Option A
  pub zone : A → Str
  pub string : A → Str

abbrev pub max_interface_name_len : ℕ
max_interface_name_len = 15

abbrev pub max_hop_zone_len : ℕ
max_hop_zone_len = 2 * max_interface_name_len

abbrev pub max_ipv6_text_len : ℕ
max_ipv6_text_len = 45

abbrev pub max_hop_addr_len : ℕ
max_hop_addr_len = max_ipv6_text_len + 1 + max_hop_zone_len

abbrev pub dangerous : ℕ → Bool
dangerous c = ltb c 32 || nat_beq c 127 || nat_beq c b'/'

unfoldable pub harmless : Str → Bool
harmless [] = true
harmless (c ∷ cs) = if dangerous c then false else harmless cs

unfoldable pub interface_zone_shaped : Str → Bool
unfolding harmless
interface_zone_shaped zone = if ltb max_hop_zone_len (length zone) then false else harmless zone

module _ {A : Type 0} (netip : Netip A) where
  unfoldable pub with_good_zone : A → Option A
  unfolding interface_zone_shaped
  with_good_zone addr =
      let z = netip.zone addr in
      if not (str_beq z []) && not (interface_zone_shaped z) then none else some addr

  -- An error is `none`: its text is only logged.
  unfoldable pub parse_hop_addr : Str → Option A
  unfolding with_good_zone
  parse_hop_addr ip =
      if ltb max_hop_addr_len (length ip) then none else (netip.parse_addr ip >>= with_good_zone)

  unfoldable pub canonical_hop_addr : Str → Str
  unfolding parse_hop_addr
  canonical_hop_addr ip = elim (parse_hop_addr ip) [ none ↦ [] | some addr ↦ netip.string addr ]
