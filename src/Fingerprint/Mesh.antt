-- ===== src/Fingerprint/Mesh.antt =====
-- internal/slavehealth/slavehealth.go: two meshes that differ have different fingerprints, where the
-- texts of addresses hold no separator.
use smokeping_go.Common.{◌≡◌, refl, sym, ap₂, Option, some, List, [], ◌∷◌, arith, Str}
use smokeping_go.SlaveHealth.Snapshot.{Peer, Snapshot}
use smokeping_go.Fingerprint.{
  sep_entry, sep_block, escape_separators, peers_text, alerts_text, mesh_fingerprint,
}
use smokeping_go.Fingerprint.Segments.{
  Clean, ended_injective, field_injective, field_apart, escape_separators-Clean,
  escape_separators_injective, ended_some,
}

alerts_injective : (xs ys : List Str) → alerts_text xs ≡ alerts_text ys → xs ≡ ys
unfolding alerts_text
alerts_injective [] [] h = refl
alerts_injective [] (y ∷ ys) h =
    absurd (ended_some (escape_separators y) sep_entry (alerts_text ys) h)
alerts_injective (x ∷ xs) [] h =
    absurd (ended_some (escape_separators x) sep_entry (alerts_text xs) (sym h))
alerts_injective (x ∷ xs) (y ∷ ys) h =
    let (same, _, rest) =
      ended_injective (escape_separators x) (escape_separators y) sep_entry sep_entry _ _
        (escape_separators-Clean x) (escape_separators-Clean y) refl refl h in
    ap₂ ◌∷◌ (escape_separators_injective x y same) (alerts_injective xs ys rest)

module _ {A : Type 0} (addr_string : Option A → Str) where
  -- What net/netip documents of String: it tells addresses apart. Its text is clean unless a zone is
  -- not.
  pub record AddrText : Type 0 where
    pub tells_apart : (a b : Option A) → addr_string a ≡ addr_string b → a ≡ b
    pub clean : (a : Option A) → Clean (addr_string a)

  same_peer : (p q : Peer A) → p.name ≡ q.name → p.addr ≡ q.addr → p ≡ q
  same_peer p q n a = ap₂ (λ name addr. record { name = name; addr = addr }) n a

  peers_injective :
      (ps qs : List (Peer A)) (r r' : Str)
      → AddrText
      → peers_text addr_string ps (sep_block ∷ r) ≡ peers_text addr_string qs (sep_block ∷ r')
      → (ps ≡ qs) × (r ≡ r')
  unfolding peers_text
  peers_injective [] [] r r' laws h = (refl, cc)
  peers_injective [] (q ∷ qs) r r' laws h =
      absurd (field_apart q.name sep_block _ r refl (λ e. ground (arith, e)) (sym h))
  peers_injective (p ∷ ps) [] r r' laws h =
      absurd (field_apart p.name sep_block _ r' refl (λ e. ground (arith, e)) h)
  peers_injective (p ∷ ps) (q ∷ qs) r r' laws h =
      let (names, after) = field_injective p.name q.name _ _ h in
      let (addrs, _, rest) =
        ended_injective (addr_string p.addr) (addr_string q.addr) sep_entry sep_entry _ _
          (laws.clean p.addr) (laws.clean q.addr) refl refl after in
      let (more, tail) = peers_injective ps qs r r' laws rest in
      (ap₂ ◌∷◌ (same_peer p q names (laws.tells_apart p.addr q.addr addrs)) more, tail)

  -- If the texts of addresses tell them apart and hold no separator, two meshes with one fingerprint
  -- are one mesh.
  pub mesh_fingerprint_injective :
      (s t : Snapshot A)
      → AddrText
      → mesh_fingerprint addr_string (some s) ≡ mesh_fingerprint addr_string (some t)
      → s ≡ t
  unfolding mesh_fingerprint
  mesh_fingerprint_injective s t laws h =
      let (peers, rest) = peers_injective s.peers t.peers _ _ laws h in
      ap₂ (λ ps xs. record { peers = ps; alerts = xs }) peers
        (alerts_injective s.alerts t.alerts rest)
