-- ===== src/Config/Storage.antt =====
-- internal/config/config.go: the reasons why Validate refuses a configuration, and its checks and defaults
-- of the storage block. time.ParseDuration is an argument, and `now` is what validateNow returns.
use smokeping_go.Common.{
  ℕ, ◌+◌, ◌*◌, ◌⊎◌, inl, inr, ℤ, pos, negsuc, outside, Bool, true, false, not, ◌&&◌, ◌||◌, Option,
  none, some, [], ◌∷◌, ltb, leb, nat_beq, if◌then◌else◌, Str, bytes, str_eq, str_beq,
}
use smokeping_go.Common.Checks.{◌<|>◌, refuse, each}
use smokeping_go.Config.{ClickHouse}
use smokeping_go.Config.Schedule.{ScheduleError}
use smokeping_go.Config.Addresses.{PinError}

pub data ConfigError : Type 0 where
  bad_schedule : ScheduleError → ConfigError
  bad_icmp_schedule : ScheduleError → ConfigError
  bad_mtr_schedule : ScheduleError → ConfigError
  no_storage_addr : ConfigError
  bad_database : ConfigError
  bad_storage_cluster : ConfigError
  bad_retention : ConfigError
  bad_batch_rows : ConfigError
  bad_batch_interval : ConfigError
  reserved_probe : ConfigError
  idle_knob : ConfigError
  no_group_name : ConfigError
  reserved_group : ConfigError
  long_group : ConfigError
  no_target_name : ConfigError
  long_target : ConfigError
  duplicate_target : ConfigError
  no_probe : ConfigError
  unknown_probe : ConfigError
  long_probe : ConfigError
  no_host : ConfigError
  bad_family : ConfigError
  unknown_alert : ConfigError
  no_condition : ConfigError
  bad_sustained : ConfigError
  unknown_action : ConfigError
  bad_source : ConfigError
  bad_pins : PinError → ConfigError
  unknown_health_alert : ConfigError

-- An error under another name.
abbrev pub wrap : {E F : Type 0} → (E → F) → Option E → Option F
wrap f none = none
wrap f (some e) = some (f e)

abbrev pub failure : {E A : Type 0} → E ⊎ A → Option E
failure (inl e) = some e
failure (inr a) = none

-- chIdent: ^[A-Za-z_][A-Za-z0-9_]*$
abbrev pub is_letter : ℕ → Bool
is_letter c = (leb b'A' c && leb c b'Z') || (leb b'a' c && leb c b'z') || nat_beq c b'_'

abbrev pub is_digit : ℕ → Bool
is_digit c = leb b'0' c && leb c b'9'

unfoldable pub word : Str → Bool
word [] = true
word (c ∷ cs) = if is_letter c || is_digit c then word cs else false

unfoldable pub is_ident : Str → Bool
unfolding word
is_ident [] = false
is_ident (c ∷ cs) = if is_letter c then word cs else false

abbrev pub max_retention_days : ℕ
max_retention_days = 36500

-- MaxDateTime, 2 ^ 32 - 1 seconds of the Unix epoch, since Go's zero time.
abbrev pub max_date_time : ℕ
max_date_time = (62135596800 + 4294967295) * 1000000000

abbrev pub day : ℕ
day = 24 * 60 * 60 * 1000000000

-- RetentionWithinDateTime; a day of UTC has 24 hours.
unfoldable pub retention_within_date_time : ℤ → ℕ → Option ConfigError
retention_within_date_time (negsuc n) now = some bad_retention
retention_within_date_time (pos n) now =
    refuse (nat_beq n 0) bad_retention
    <|> refuse (ltb max_retention_days n) bad_retention
    <|> refuse (ltb max_date_time (now + n * day)) bad_retention

-- 0 days take the default.
unfoldable pub check_retention : ℕ → ℤ → Option ConfigError
unfolding retention_within_date_time
check_retention now (negsuc n) = some bad_retention
check_retention now (pos n) =
    if nat_beq n 0
    then none
    else refuse (ltb max_retention_days n) bad_retention <|> retention_within_date_time (pos n) now

abbrev pub or_days : ℕ → ℤ → ℤ
or_days def (negsuc n) = negsuc n
or_days def (pos n) = if nat_beq n 0 then pos def else pos n

abbrev pub or_text : Str → Str → Str
or_text def s = if str_beq s [] then def else s

abbrev pub max_batch_rows : ℕ
max_batch_rows = 1000000

abbrev pub max_batch_interval : ℕ
max_batch_interval = 60 * 60 * 1000000000

-- `d <= 0 || d > limit`, or no duration at all
abbrev pub not_within : ℕ → Option ℤ → Bool
not_within limit none = true
not_within limit (some (negsuc n)) = true
not_within limit (some (pos n)) = nat_beq n 0 || ltb limit n

unfoldable pub with_defaults : ClickHouse → ClickHouse
with_defaults ch = record ch {
  database = or_text (bytes "gosmokeping") ch.database;
  username = or_text (bytes "default") ch.username;
  retention = record {
    cycle_days = or_days 365 ch.retention.cycle_days;
    rtt_days = or_days 14 ch.retention.rtt_days;
    hop_days = or_days 90 ch.retention.hop_days;
    http_days = or_days 14 ch.retention.http_days;
  };
  batch = record {
    max_rows = or_days 1000 ch.batch.max_rows;
    max_interval = or_text (bytes "1s") ch.batch.max_interval;
  };
}

unfoldable pub check_storage : (Str → Option ℤ) → ℕ → ClickHouse → Option ConfigError
unfolding is_ident check_retention with_defaults each
check_storage parse_duration now ch =
    let full = with_defaults ch in
    refuse (str_beq ch.addr []) no_storage_addr
    <|> refuse (not (is_ident full.database)) bad_database
    <|> refuse (not (str_beq ch.cluster []) && not (is_ident ch.cluster)) bad_storage_cluster
    <|> each (check_retention now) (
        ch.retention.cycle_days ∷ ch.retention.rtt_days ∷ ch.retention.hop_days
        ∷ ch.retention.http_days ∷ [])
    <|> refuse (outside max_batch_rows full.batch.max_rows) bad_batch_rows
    <|> refuse (not_within max_batch_interval (parse_duration full.batch.max_interval))
        bad_batch_interval
