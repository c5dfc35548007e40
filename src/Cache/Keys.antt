-- ===== src/Cache/Keys.antt =====
-- internal/storage/cache.go: the keys of the queries. Times and durations are nanoseconds, of times those
-- since the Unix epoch, which a time before it has below zero.
use smokeping_go.Common.{
  ℕ, zero, suc, ◌+◌, ◌-◌, ◌*◌, ◌/◌, ◌<◌, ◌≡◌, refl, sym, ap, ◌∙◌, inl, inr, Bool-cases, Bool, true,
  false, ◌||◌, Option, none, some, arith, Str, ℤ, pos, negsuc, ltb, if◌then◌else◌,
}
use smokeping_go.Cycle.{TargetRef}

abbrev pub second : ℕ
second = 1000000000

abbrev pub from_quantum : ℕ
from_quantum = 300000000000

abbrev pub to_quantum : ℕ
to_quantum = 60000000000

-- A number, not above zero.
abbrev pub negated : ℕ → ℤ
negated zero = pos 0
negated (suc n) = negsuc n

-- The whole units of a time, rounded down, which is what Unix and UnixMilli give.
unfoldable pub whole : ℕ → ℤ → ℤ
whole unit (pos n) = pos (n / unit)
whole unit (negsuc n) = negsuc (n / unit)

-- (u / q) * q on int64, whose division rounds toward zero.
unfoldable pub truncate : ℤ → ℕ → ℤ
truncate (pos u) q = pos (u / q * q)
truncate (negsuc u) q = negated ((u + 1) / q * q)

abbrev pub raise : ℤ → ℕ → ℤ
raise (pos u) n = pos (u + n)
raise (negsuc u) n = if ltb u n then pos (n - u - 1) else negsuc (u - n)

unfoldable pub floor_unix : ℤ → ℕ → ℤ
unfolding whole truncate
floor_unix t q = truncate (whole second t) (q / second)

unfoldable pub ceil_unix : ℤ → ℕ → ℤ
unfolding whole truncate
ceil_unix t q = truncate (raise (whole second t) (q / second - 1)) (q / second)

-- The source and the step of QueryFilter, and its freshness floor.
pub record QueryFilter : Type 0 where
  pub source : Str
  pub step : ℕ
  pub latest_since : Option ℤ

pub record CycleCacheKey : Type 0 where
  pub group : Str
  pub name : Str
  pub source : Str
  pub from_unix : ℤ
  pub to_unix : ℤ
  pub step_sec : ℕ

pub data HopsKind : Type 0 where
  latest : HopsKind
  at : HopsKind
  timeline : HopsKind

pub record HopsCacheKey : Type 0 where
  pub kind : HopsKind
  pub group : Str
  pub name : Str
  pub source : Str
  pub from_unix : ℤ
  pub to_unix : ℤ
  pub latest_since_unix : ℤ
  pub step_sec : ℕ

unfoldable pub cycle_key : TargetRef → ℤ → ℤ → QueryFilter → CycleCacheKey
unfolding floor_unix ceil_unix
cycle_key ref from to f = record {
  group = ref.group;
  name = ref.target.name;
  source = f.source;
  from_unix = floor_unix from from_quantum;
  to_unix = ceil_unix to to_quantum;
  step_sec = f.step / second;
}

abbrev pub since_unix : Option ℤ → ℤ
since_unix none = pos 0
since_unix (some t) = floor_unix t to_quantum

unfoldable pub latest_key : TargetRef → QueryFilter → HopsCacheKey
unfolding floor_unix
latest_key ref f = record {
  kind = latest;
  group = ref.group;
  name = ref.target.name;
  source = f.source;
  from_unix = pos 0;
  to_unix = pos 0;
  latest_since_unix = since_unix f.latest_since;
  step_sec = 0;
}

-- The pinned instant in milliseconds, and the width of its window.
unfoldable pub at_key : TargetRef → ℤ → ℕ → QueryFilter → HopsCacheKey
unfolding whole
at_key ref pin window f = record {
  kind = at;
  group = ref.group;
  name = ref.target.name;
  source = f.source;
  from_unix = whole 1000000 pin;
  to_unix = pos (window / second);
  latest_since_unix = pos 0;
  step_sec = 0;
}

unfoldable pub timeline_key : TargetRef → ℤ → ℤ → QueryFilter → HopsCacheKey
unfolding floor_unix ceil_unix
timeline_key ref from to f = record {
  kind = timeline;
  group = ref.group;
  name = ref.target.name;
  source = f.source;
  from_unix = floor_unix from from_quantum;
  to_unix = ceil_unix to to_quantum;
  latest_since_unix = pos 0;
  step_sec = f.step / second;
}

-- CoalesceHopsAt, as nanoseconds: time.Unix of the floor.
abbrev pub seconds : ℤ → ℤ
seconds (pos u) = pos (u * second)
seconds (negsuc u) = negated ((u + 1) * second)

unfoldable pub coalesce_hops_at : ℤ → ℤ
unfolding floor_unix
coalesce_hops_at pin = seconds (floor_unix pin to_quantum)

-- How far two times are from each other.
abbrev pub apart : ℤ → ℤ → ℕ
apart (pos a) (pos b) = a - b + (b - a)
apart (pos a) (negsuc b) = a + b + 1
apart (negsuc a) (pos b) = a + b + 1
apart (negsuc a) (negsuc b) = a - b + (b - a)

abbrev pub before_epoch : ℤ → Bool
before_epoch (pos a) = false
before_epoch (negsuc a) = true

-- Two times are less than a quantum from each other, twice that if one is before 1970.
abbrev pub Close : ℤ → ℤ → ℕ → Type 0
Close a b q = apart a b < (if before_epoch a || before_epoch b then 2 * q else q)

-- The windows of two queries, and whose they are.
pub record SameWindow (ref ref' : TargetRef) (from from' to to' : ℤ) (f f' : QueryFilter)
    : Type 0 where
  pub group : ref.group ≡ ref'.group
  pub name : ref.target.name ≡ ref'.target.name
  pub source : f.source ≡ f'.source
  pub step : f.step / second ≡ f'.step / second
  pub starts : Close from from' from_quantum
  pub ends : Close to to' to_quantum

unfoldable magnitude : ℤ → ℕ
magnitude (pos n) = n
magnitude (negsuc n) = suc n

unfoldable pos_part : ℤ → ℕ
pos_part (pos n) = n
pos_part (negsuc n) = 0

magnitude-negated : (n : ℕ) → magnitude (negated n) ≡ n
unfolding magnitude
magnitude-negated zero = refl
magnitude-negated (suc n) = refl

pos_part-negated : (n : ℕ) → pos_part (negated n) ≡ 0
unfolding pos_part
pos_part-negated zero = refl
pos_part-negated (suc n) = refl

both_zero : (m n : ℕ) → pos m ≡ negated n → (m ≡ 0) × (n ≡ 0)
unfolding magnitude pos_part
both_zero m n h =
    let p : m ≡ 0 = ap pos_part h ∙ pos_part-negated n in
    let q : m ≡ n = ap magnitude h ∙ magnitude-negated n in (p, omega (arith, p, q))

same_negated : (m n : ℕ) → negated m ≡ negated n → m ≡ n
same_negated m n h = sym (magnitude-negated m) ∙ ap magnitude h ∙ magnitude-negated n

astride :
    (a b : ℕ)
    → floor_unix (pos a) from_quantum ≡ floor_unix (negsuc b) from_quantum
    → a + b + 1 < 2 * from_quantum
unfolding floor_unix whole truncate
astride a b h =
    let (m, n) = both_zero (a / second / 300 * 300) ((b / second + 1) / 300 * 300) h in
    omega (arith, m, n)

floor_unix-Close :
    (a b : ℤ) → floor_unix a from_quantum ≡ floor_unix b from_quantum → Close a b from_quantum
unfolding floor_unix whole truncate magnitude
floor_unix-Close (pos a) (pos b) h = let e = ap magnitude h in omega (arith, e)
floor_unix-Close (pos a) (negsuc b) h = astride a b h
floor_unix-Close (negsuc a) (pos b) h = let e = astride b a (sym h) in omega (arith, e)
floor_unix-Close (negsuc a) (negsuc b) h =
    let e = same_negated ((a / second + 1) / 300 * 300) ((b / second + 1) / 300 * 300) h in
    omega (arith, e)

ceil_unix-negsuc :
    (a : ℕ) → ceil_unix (negsuc a) to_quantum ≡ negated ((a / second + 1 - 59) / 60 * 60)
unfolding ceil_unix whole truncate
ceil_unix-negsuc a = elim (Bool-cases (ltb (a / second) 59)) [
  | inl near ↦
      let m : (59 - a / second - 1) / 60 * 60 ≡ 0 = ground (arith, near) in
      let n : (a / second + 1 - 59) / 60 * 60 ≡ 0 = ground (arith, near) in
      rw near (ap pos m ∙ ap negated (sym n))
  | inr far ↦
      let m : a / second - 59 + 1 ≡ a / second + 1 - 59 = ground (arith, far) in
      rw far (ap (λ k. negated (k / 60 * 60)) m)
]

ceil_astride :
    (a b : ℕ)
    → ceil_unix (pos a) to_quantum ≡ ceil_unix (negsuc b) to_quantum
    → a + b + 1 < 2 * to_quantum
unfolding ceil_unix whole truncate
ceil_astride a b h =
    let (m, n) =
      both_zero ((a / second + 59) / 60 * 60) ((b / second + 1 - 59) / 60 * 60)
        (h ∙ ceil_unix-negsuc b) in
    omega (arith, m, n)

ceil_unix-Close : (a b : ℤ) → ceil_unix a to_quantum ≡ ceil_unix b to_quantum → Close a b to_quantum
unfolding ceil_unix whole truncate magnitude
ceil_unix-Close (pos a) (pos b) h = let e = ap magnitude h in omega (arith, e)
ceil_unix-Close (pos a) (negsuc b) h = ceil_astride a b h
ceil_unix-Close (negsuc a) (pos b) h = let e = ceil_astride b a (sym h) in omega (arith, e)
ceil_unix-Close (negsuc a) (negsuc b) h =
    let e =
      same_negated ((a / second + 1 - 59) / 60 * 60) ((b / second + 1 - 59) / 60 * 60)
        (sym (ceil_unix-negsuc a) ∙ h ∙ ceil_unix-negsuc b) in
    omega (arith, e)

-- Two chart queries share a cycle entry only if they are of one target, source and bucket width, and
-- their windows differ by less than five minutes at the start and less than one minute at the end,
-- less than twice that where one of the two times is before 1970.
pub cycle_keys_close :
    (ref ref' : TargetRef) (from from' to to' : ℤ) (f f' : QueryFilter)
    → cycle_key ref from to f ≡ cycle_key ref' from' to' f'
    → SameWindow ref ref' from from' to to' f f'
unfolding cycle_key
cycle_keys_close ref ref' from from' to to' f f' h = record {
  group = ap (λ k. k.group) h;
  name = ap (λ k. k.name) h;
  source = ap (λ k. k.source) h;
  step = ap (λ k. k.step_sec) h;
  starts = floor_unix-Close from from' (ap (λ k. k.from_unix) h);
  ends = ceil_unix-Close to to' (ap (λ k. k.to_unix) h);
}
