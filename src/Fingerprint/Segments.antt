-- ===== src/Fingerprint/Segments.antt =====
-- internal/config/config.go: escaped text holds no separator and can be read back, so that a text ends
-- where its separator stands.
use smokeping_go.Common.{
  ℕ, ◌≡◌, ◌≢◌, refl, sym, ap, ap₂, ◌∙◌, inl, inr, Bool, true, false, List, [], ◌∷◌, ◌++◌, arith,
  nat_beq, nat_beq_iff, if◌then◌else◌, Bool-cases, Str, length, All, All-append, subst, ◌||◌,
}
use smokeping_go.Fingerprint.{
  sep_field, sep_list, sep_entry, sep_block, is_special, contains_special, escape_byte, replace,
  escape_separators, ended, field, fields,
}

-- The text before escaping, of an escaped text.
unfoldable pub unescape : Str → Str
unescape [] = []
unescape (c ∷ []) = c ∷ []
unescape (c ∷ d ∷ s) =
    let rest = unescape s in
    let rest' = unescape (d ∷ s) in
    if nat_beq c b'\\'
    then (if nat_beq d b'u'
        then sep_field ∷ rest
        else if nat_beq d b'f'
        then sep_list ∷ rest
        else if nat_beq d b'r'
        then sep_entry ∷ rest
        else if nat_beq d b'g'
        then sep_block ∷ rest
        else d ∷ rest)
    else c ∷ rest'

unescape-plain : (c : ℕ) (s : Str) → nat_beq c b'\\' ≡ false → unescape (c ∷ s) ≡ c ∷ unescape s
unfolding unescape
unescape-plain c [] h = refl
unescape-plain c (d ∷ s) h = rw h refl

unescape-byte : (c : ℕ) (s : Str) → unescape (escape_byte c ++ s) ≡ c ∷ unescape s
unfolding unescape
unescape-byte c s = elim (Bool-cases (nat_beq c b'\\')) [
  | inl e ↦ rw (e, (nat_beq_iff c b'\\').0 e) refl
  | inr a ↦ elim (Bool-cases (nat_beq c sep_field)) [
    | inl e ↦ rw (a, e, (nat_beq_iff c sep_field).0 e) refl
    | inr b ↦ elim (Bool-cases (nat_beq c sep_list)) [
      | inl e ↦ rw (a, b, e, (nat_beq_iff c sep_list).0 e) refl
      | inr d ↦ elim (Bool-cases (nat_beq c sep_entry)) [
        | inl e ↦ rw (a, b, d, e, (nat_beq_iff c sep_entry).0 e) refl
        | inr f ↦ elim (Bool-cases (nat_beq c sep_block)) [
          | inl e ↦ rw (a, b, d, f, e, (nat_beq_iff c sep_block).0 e) refl
          | inr g ↦ rw (a, b, d, f, g) (unescape-plain c s a)
        ]
      ]
    ]
  ]
]

unescape-replace : (s : Str) → unescape (replace s) ≡ s
unfolding replace unescape
unescape-replace [] = refl
unescape-replace (c ∷ s) = unescape-byte c (replace s) ∙ ap (◌∷◌ c) (unescape-replace s)

escape_ordinary : (c : ℕ) → is_special c ≡ false → escape_byte c ≡ c ∷ []
escape_ordinary c h = ground (arith, h)

replace_ordinary : (s : Str) → contains_special s ≡ false → replace s ≡ s
unfolding contains_special replace
replace_ordinary [] h = refl
replace_ordinary (c ∷ s) h = elim (Bool-cases (is_special c)) [
  | inl special ↦ absurd (ground (arith, h, special))
  | inr ordinary ↦
      let rest : contains_special s ≡ false = rw ordinary at h in
      ap₂ (λ x y. x ++ y) (escape_ordinary c ordinary) (replace_ordinary s rest)
]

-- The early return of EscapeSeparators changes nothing.
escape-is-replace : (s : Str) → escape_separators s ≡ replace s
unfolding escape_separators
escape-is-replace s = elim (Bool-cases (contains_special s)) [
  | inl special ↦ rw special refl
  | inr ordinary ↦ rw ordinary (sym (replace_ordinary s ordinary))
]

-- An escaped name can be read back, so no two names are escaped alike.
pub unescape-escape_separators : (s : Str) → unescape (escape_separators s) ≡ s
unescape-escape_separators s = ap unescape (escape-is-replace s) ∙ unescape-replace s

pub escape_separators_injective : (s t : Str) → escape_separators s ≡ escape_separators t → s ≡ t
escape_separators_injective s t h =
    sym (unescape-escape_separators s) ∙ ap unescape h ∙ unescape-escape_separators t

abbrev pub is_separator : ℕ → Bool
is_separator c =
    nat_beq c sep_field || nat_beq c sep_list || nat_beq c sep_entry || nat_beq c sep_block

-- No separator stands in the text.
abbrev pub Clean : Str → Type 0
Clean = All (λ c. is_separator c ≡ false)

All-append-Clean : (x y : Str) → Clean x → Clean y → Clean (x ++ y)
All-append-Clean x y = All-append _ x y

escape_byte-Clean : (c : ℕ) → Clean (escape_byte c)
escape_byte-Clean c = elim (Bool-cases (nat_beq c b'\\')) [
  | inl e ↦ rw e (refl, (refl, tt))
  | inr a ↦ elim (Bool-cases (nat_beq c sep_field)) [
    | inl e ↦ rw (a, e) (refl, (refl, tt))
    | inr b ↦ elim (Bool-cases (nat_beq c sep_list)) [
      | inl e ↦ rw (a, b, e) (refl, (refl, tt))
      | inr d ↦ elim (Bool-cases (nat_beq c sep_entry)) [
        | inl e ↦ rw (a, b, d, e) (refl, (refl, tt))
        | inr f ↦ elim (Bool-cases (nat_beq c sep_block)) [
          | inl e ↦ rw (a, b, d, f, e) (refl, (refl, tt))
          | inr g ↦ rw (a, b, d, f, g) (rw (b, d, f, g) refl, tt)
        ]
      ]
    ]
  ]
]

replace-Clean : (s : Str) → Clean (replace s)
unfolding replace
replace-Clean [] = tt
replace-Clean (c ∷ s) =
    All-append-Clean (escape_byte c) (replace s) (escape_byte-Clean c) (replace-Clean s)

pub escape_separators-Clean : (s : Str) → Clean (escape_separators s)
escape_separators-Clean s = subst Clean (sym (escape-is-replace s)) (replace-Clean s)

-- Where clean text ends, its separator stands: the text, the separator and what follows are determined.
pub ended_injective :
    (x y : Str) (a b : ℕ) (r r' : Str)
    → Clean x
    → Clean y
    → is_separator a ≡ true
    → is_separator b ≡ true
    → ended x a r ≡ ended y b r'
    → (x ≡ y) × (a ≡ b) × (r ≡ r')
ended_injective [] [] a b r r' cx cy ha hb h = (refl, cc, cc)
ended_injective [] (d ∷ y) a b r r' cx cy ha hb h =
    let e : a ≡ d = cc in absurd (ground (arith, ap is_separator e, ha, cy.0))
ended_injective (c ∷ x) [] a b r r' cx cy ha hb h =
    let e : c ≡ b = cc in absurd (ground (arith, ap is_separator e, hb, cx.0))
ended_injective (c ∷ x) (d ∷ y) a b r r' cx cy ha hb h =
    let e : c ≡ d = cc in
    let rest : ended x a r ≡ ended y b r' = cc in
    let (same, sep, tail) = ended_injective x y a b r r' cx.1 cy.1 ha hb rest in
    (ap₂ ◌∷◌ e same, sep, tail)

-- A field is determined by what `field` writes, and so is what follows.
pub field_injective : (s t : Str) (r r' : Str) → field s r ≡ field t r' → (s ≡ t) × (r ≡ r')
unfolding field
field_injective s t r r' h =
    let (same, _, rest) =
      ended_injective (escape_separators s) (escape_separators t) sep_field sep_field r r'
        (escape_separators-Clean s) (escape_separators-Clean t) refl refl h in
    (escape_separators_injective s t same, rest)

-- No other separator stands where a field begins.
pub field_apart :
    (s : Str) (k : ℕ) (r r' : Str) → is_separator k ≡ true → sep_field ≢ k → field s r ≢ k ∷ r'
unfolding field
field_apart s k r r' sep other h =
    other
      (ended_injective (escape_separators s) [] sep_field k r r' (escape_separators-Clean s) tt refl
        sep h).1

pub fields_injective :
    (ss ts : List Str) (k : ℕ) (r r' : Str)
    → is_separator k ≡ true
    → sep_field ≢ k
    → fields ss (k ∷ r) ≡ fields ts (k ∷ r')
    → (ss ≡ ts) × (r ≡ r')
unfolding fields
fields_injective [] [] k r r' sep other h = (refl, cc)
fields_injective [] (t ∷ ts) k r r' sep other h =
    absurd (field_apart t k (fields ts (k ∷ r')) r sep other (sym h))
fields_injective (s ∷ ss) [] k r r' sep other h =
    absurd (field_apart s k (fields ss (k ∷ r)) r' sep other h)
fields_injective (s ∷ ss) (t ∷ ts) k r r' sep other h =
    let (same, rest) = field_injective s t (fields ss (k ∷ r)) (fields ts (k ∷ r')) h in
    let (more, tail) = fields_injective ss ts k r r' sep other rest in (ap₂ ◌∷◌ same more, tail)

pub fields_as_many :
    (ss ts : List Str) (r r' : Str)
    → length ss ≡ length ts
    → fields ss r ≡ fields ts r'
    → (ss ≡ ts) × (r ≡ r')
unfolding fields
fields_as_many [] [] r r' e h = (refl, h)
fields_as_many [] (t ∷ ts) r r' e h = absurd (omega (arith, e))
fields_as_many (s ∷ ss) [] r r' e h = absurd (omega (arith, e))
fields_as_many (s ∷ ss) (t ∷ ts) r r' e h =
    let (same, rest) = field_injective s t (fields ss r) (fields ts r') h in
    let (more, tail) = fields_as_many ss ts r r' (omega (arith, e)) rest in
    (ap₂ ◌∷◌ same more, tail)

pub ended_some : (s : Str) (k : ℕ) (r : Str) → [] ≢ ended s k r
ended_some [] k r e = cc
ended_some (c ∷ s) k r e = cc

pub field_some : (s r : Str) → [] ≢ field s r
unfolding field
field_some s r = ended_some (escape_separators s) sep_field r
