-- ===== src/Config/Addresses.antt =====
-- internal/config/config.go: ParseReachableAddr and ParsedSlaveAddrs, the pins of slave names to
-- addresses. Of net/netip it takes the parse, Unmap and the tests on an address.
use smokeping_go.Common.{
  ◌≡◌, ◌≢◌, sym, subst, ap, ◌∙◌, ◌⊎◌, inl, inr, Bool, ◌||◌, Option, none, some, List, [], ◌∷◌,
  arith, if◌then◌else◌, Option-cases, Sum-cases, Str, str_eq, str_beq, Eq,
}
use smokeping_go.Common.Map
use smokeping_go.Common.Sort.{sort_by}

-- net/netip's Addr: only a valid one is a value of `A`.
pub record Reach (A : Type 0) : Type 0 where
  pub parse_addr : Str → Option A
  pub unmap : A → A
  pub is_unspecified : A → Bool
  pub is_loopback : A → Bool
  pub is_multicast : A → Bool
  pub is_interface_local_multicast : A → Bool
  pub is_link_local_multicast : A → Bool
  pub is_link_local_unicast : A → Bool

pub data AddrError : Type 0 where
  empty : AddrError
  not_literal : AddrError
  unspecified : AddrError
  loopback : AddrError
  multicast : AddrError
  link_local : AddrError

pub data PinError : Type 0 where
  bad_pin : Str → AddrError → PinError
  shared_pin : Str → Str → PinError

module _ {A : Type 0} (reach : Reach A) where
  unfoldable pub reachable : A → AddrError ⊎ A
  reachable addr =
      if reach.is_unspecified addr
      then inl unspecified
      else if reach.is_loopback addr
      then inl loopback
      else if reach.is_multicast addr
          || reach.is_interface_local_multicast addr
          || reach.is_link_local_multicast addr
      then inl multicast
      else if reach.is_link_local_unicast addr
      then inl link_local
      else inr addr

  unfoldable pub parse_reachable_addr : Str → AddrError ⊎ A
  unfolding reachable
  parse_reachable_addr raw = if str_beq raw [] then inl empty else elim (reach.parse_addr raw) [
    | none ↦ inl not_literal
    | some addr ↦ reachable (reach.unmap addr)
  ]

module _ {A : Type 0} ⦃e : Eq A⦄ (reach : Reach A) where
  -- The loop over the names in order, with the owner of each address and the pins so far.
  unfoldable pub pins_loop :
      List (Str × Str) → List (A × Str) → List (Str × A) → PinError ⊎ List (Str × A)
  unfolding parse_reachable_addr
  pins_loop [] owner out = inr out
  pins_loop ((name, raw) ∷ rest) owner out = elim (parse_reachable_addr reach raw) [
    | inl err ↦ inl (bad_pin name err)
    | inr addr ↦ elim (Map.lookup addr owner) [
      | some first ↦ inl (shared_pin first name)
      | none ↦ pins_loop rest (Map.insert addr name owner) (Map.insert name addr out)
    ]
  ]

  unfoldable pub parsed_slave_addrs : List (Str × Str) → PinError ⊎ List (Str × A)
  unfolding pins_loop
  parsed_slave_addrs addrs = pins_loop (sort_by (λ p. p.0) addrs) [] []

  -- The owners are the pins, turned round.
  Inverse : List (A × Str) → List (Str × A) → Type 0
  Inverse owner out = (n : Str) (a : A) → Map.lookup n out ≡ some a → Map.lookup a owner ≡ some n

  insert-Inverse :
      (owner : List (A × Str)) (out : List (Str × A)) (name : Str) (addr : A)
      → Map.lookup addr owner ≡ none
      → Inverse owner out
      → Inverse (Map.insert addr name owner) (Map.insert name addr out)
  unfolding Inverse
  insert-Inverse owner out name addr free h n a found =
      elim (Map.lookup-insert-some n name addr a out found) [
        | inl (here, same) ↦
            subst (λ b. Map.lookup b (Map.insert addr name owner) ≡ some n) same
              (Map.lookup-insert_self addr name owner ∙ ap some here)
        | inr (_, old) ↦ Map.lookup-insert_ne a addr name owner (apart n a (h n a old)) ∙ h n a old
      ]
    where
      apart : (n : Str) (a : A) → Map.lookup a owner ≡ some n → addr ≢ a
      apart n a held same =
          let e : none ≡ some n = sym free ∙ ap (λ b. Map.lookup b owner) same ∙ held in
          ground (arith, e)

  refused : (err : PinError) (pins : List (Str × A)) → inl err ≢ inr pins
  refused err pins f = cc

  pins_loop-Inverse :
      (entries : List (Str × Str)) (owner : List (A × Str)) (out pins : List (Str × A))
      → Inverse owner out
      → pins_loop entries owner out ≡ inr pins
      → (owner' : List (A × Str)) × Inverse owner' pins
  unfolding pins_loop
  pins_loop-Inverse [] owner out pins h e = (owner, subst (Inverse owner) (unwrap e) h)
    where
      unwrap : ◌≡◌ {A = PinError ⊎ List (Str × A)} (inr out) (inr pins) → out ≡ pins
      unwrap f = cc
  pins_loop-Inverse ((name, raw) ∷ rest) owner out pins h e =
      elim (Sum-cases (parse_reachable_addr reach raw)) [
        | inl (err, bad) ↦ absurd (refused (bad_pin name err) pins (rw (bad, pins_loop) at e))
        | inr (addr, good) ↦ elim (Option-cases (Map.lookup addr owner)) [
          | inl free ↦
              pins_loop-Inverse rest (Map.insert addr name owner) (Map.insert name addr out) pins
                (insert-Inverse owner out name addr free h) (rw (good, free, pins_loop) at e)
          | inr (first, held) ↦
              absurd (refused (shared_pin first name) pins (rw (good, held, pins_loop) at e))
        ]
      ]

  -- Accepted pins tell the slaves apart: no address is pinned to two names.
  pub pins_distinct :
      (addrs : List (Str × Str)) (pins : List (Str × A)) (m n : Str) (a : A)
      → parsed_slave_addrs addrs ≡ inr pins
      → Map.lookup m pins ≡ some a
      → Map.lookup n pins ≡ some a
      → m ≡ n
  unfolding parsed_slave_addrs Inverse Map.lookup
  pins_distinct addrs pins m n a parsed hm hn =
      let (owner, inverse) =
        pins_loop-Inverse (sort_by (λ p. p.0) addrs) [] [] pins
          (λ k b found. absurd (ground (arith, found))) parsed in
      let e : some m ≡ some n = sym (inverse m a hm) ∙ inverse n a hn in cc
