-- ===== src/Config/Minimal.antt =====
-- internal/config/config.go: ValidateMinimal, which a slave's own configuration has to pass, and what the
-- master then makes of its registration. Of net/url it takes the parse of a URL.
use smokeping_go.Common.{
  ℕ, ◌≤◌, ◌≡◌, ◌≢◌, refl, inr, ℤ, pos, negsuc, Bool, true, not, ◌&&◌, ◌||◌, Option, none, some, [],
  arith, ltb, nat_beq, Str, bytes, str_beq, Eq, length,
}
use smokeping_go.Common.Checks.{◌<|>◌, refuse}
use smokeping_go.Limits.{max_slave_field_len}
use smokeping_go.Cycle.{Cycle}
use smokeping_go.Config.{Cluster, valid_slave_name}
use smokeping_go.Server.{Server, Reply, World, Platform, handle_register}
use smokeping_go.Server.Refusals.{short_accepted}

pub record Url : Type 0 where
  pub host : Str
  pub scheme : Str

pub data MinimalError : Type 0 where
  no_cluster : MinimalError
  no_master_url : MinimalError
  bad_master_url : MinimalError
  insecure : MinimalError
  no_token : MinimalError
  no_name : MinimalError
  bad_buffer : MinimalError
  bad_name : MinimalError
  long_advertise : MinimalError

abbrev pub min_buffer_bytes : ℕ
min_buffer_bytes = 1048576

abbrev pub max_buffer_bytes : ℕ
max_buffer_bytes = 17179869184

-- 0 means the default.
abbrev pub bad_buffer_bytes : ℤ → Bool
bad_buffer_bytes (negsuc n) = true
bad_buffer_bytes (pos n) = not (nat_beq n 0) && (ltb n min_buffer_bytes || ltb max_buffer_bytes n)

unfoldable pub validate_cluster_headers : Option Cluster → Option MinimalError
unfolding valid_slave_name
validate_cluster_headers none = none
validate_cluster_headers (some cl) =
    refuse (not (str_beq cl.name []) && not (valid_slave_name cl.name)) bad_name
    <|> refuse (ltb max_slave_field_len (length cl.advertise)) long_advertise

module _ (parse_url : Str → Option Url) where
  abbrev pub check_url : Bool → Option Url → Option MinimalError
  check_url insecure_allowed none = some bad_master_url
  check_url insecure_allowed (some u) =
      refuse (str_beq u.host []) bad_master_url
      <|> refuse (not (str_beq u.scheme (bytes "https")) && not insecure_allowed) insecure

  unfoldable pub validate_minimal : Option Cluster → Option MinimalError
  unfolding validate_cluster_headers
  validate_minimal none = some no_cluster
  validate_minimal (some cl) =
      refuse (str_beq cl.master_url []) no_master_url
      <|> check_url cl.insecure_master_url (parse_url cl.master_url)
      <|> refuse (str_beq cl.token []) no_token
      <|> refuse (str_beq cl.name []) no_name
      <|> refuse (bad_buffer_bytes cl.buffer_bytes) bad_buffer
      <|> validate_cluster_headers (some cl)

  passed : (a b : Option MinimalError) → (a <|> b) ≡ none → (a ≡ none) × (b ≡ none)
  passed none b h = (refl, h)
  passed (some e) b h = absurd (ground (arith, h))

  -- What the accepted cluster block says of the two fields that travel as headers.
  accepted :
      (cl : Cluster)
      → validate_minimal (some cl) ≡ none
      → (valid_slave_name cl.name ≡ true) × (length cl.advertise ≤ max_slave_field_len)
  unfolding validate_minimal validate_cluster_headers
  accepted cl h =
      let (_, h1) = passed (refuse (str_beq cl.master_url []) no_master_url) _ h in
      let (_, h2) = passed (check_url cl.insecure_master_url (parse_url cl.master_url)) _ h1 in
      let (_, h3) = passed (refuse (str_beq cl.token []) no_token) _ h2 in
      let (named, h4) = passed (refuse (str_beq cl.name []) no_name) _ h3 in
      let (_, h5) = passed (refuse (bad_buffer_bytes cl.buffer_bytes) bad_buffer) _ h4 in
      let (good, short) =
        passed (refuse (not (str_beq cl.name []) && not (valid_slave_name cl.name)) bad_name) _
          h5 in
      (ground (arith, named, good), ground (arith, short))

  module _ {A F : Type 0} ⦃e : Eq A⦄ (platform : Platform A F) (panics : Cycle → Bool) where
    -- A slave whose configuration ValidateMinimal accepts, and whose version has at most 256 bytes,
    -- is not refused for good by any master, in any state: its registration is taken, or answered
    -- with a status that it retries.
    pub accepted_never_permanent :
        (cl : Cluster) (w : World A) (remote version : Str) (s : Server A)
        → validate_minimal (some cl) ≡ none
        → length version ≤ max_slave_field_len
        → (handle_register platform panics w remote
            (inr (record { name = cl.name; version = version; advertise = cl.advertise }))
            s).0
          ≢ Reply.permanent
    accepted_never_permanent cl w remote version s h short =
        let (named, field) = accepted cl h in
        short_accepted platform panics w remote
          (record { name = cl.name; version = version; advertise = cl.advertise }) s named
          (ground (arith, short, field))
