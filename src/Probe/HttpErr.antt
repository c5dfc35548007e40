-- ===== src/Probe/HttpErr.antt =====
-- internal/probe/http.go and trace.go: what the folded texts promise whoever stores them.
use smokeping_go.Common.{
  ℕ, zero, suc, ◌-◌, ◌≤◌, ◌≡◌, refl, ◌⊎◌, inl, inr, true, [], ◌∷◌, ◌++◌, arith, leb, leb→le,
  Bool-cases, Str, str_beq, length, take, drop, length-append, length-drop,
}
use smokeping_go.Probe.{
  canonical_unreach, is_label, unreach_labels, unreach_other, max_http_err_len, err_truncation_mark,
  head_cut, tail_cut, truncate_http_err,
}

length-take_le : (n : ℕ) (s : Str) → length (take n s) ≤ n
length-take_le zero s = omega arith
length-take_le (suc n) [] = omega arith
length-take_le (suc n) (b ∷ s) = omega (arith, length-take_le n s)

head_cut_le : (s : Str) (n : ℕ) → head_cut s n ≤ n
unfolding head_cut
head_cut_le s zero = omega arith
head_cut_le s (suc n) = ground (arith, head_cut_le s n)

length-tail_cut_le : (s : Str) → length (tail_cut s) ≤ length s
unfolding tail_cut
length-tail_cut_le [] = omega arith
length-tail_cut_le (b ∷ s) = ground (arith, length-tail_cut_le s)

length_cut :
    (s : Str) (head : ℕ)
    → head ≤ 2039
    → length (take head s ++ err_truncation_mark ++ tail_cut (drop (length s - (4079 - head)) s))
      ≤ max_http_err_len
length_cut s head le =
    let tail = drop (length s - (4079 - head)) s in
    rw
      (
        length-append (take head s ++ err_truncation_mark) (tail_cut tail),
        length-append (take head s) err_truncation_mark,
      )
      (omega (
        arith,
        length-take_le head s,
        length-tail_cut_le tail,
        length-drop (length s - (4079 - head)) s,
      ))

-- A truncated error has at most MaxHTTPErrLen bytes.
pub length-truncate_http_err : (s : Str) → length (truncate_http_err s) ≤ max_http_err_len
unfolding truncate_http_err
length-truncate_http_err s = elim (Bool-cases (leb (length s) max_http_err_len)) [
  | inl fits ↦ rw fits (leb→le _ _ fits)
  | inr long ↦ rw long (length_cut s (head_cut s 2039) (head_cut_le s 2039))
]

-- What fits is kept.
pub truncate_http_err_short : (s : Str) → length s ≤ max_http_err_len → truncate_http_err s ≡ s
unfolding truncate_http_err
truncate_http_err_short s h = elim (Bool-cases (leb (length s) max_http_err_len)) [
  | inl fits ↦ rw fits refl
  | inr long ↦ absurd (ground (arith, long))
]

-- A second pass changes nothing.
pub truncate-truncate : (s : Str) → truncate_http_err (truncate_http_err s) ≡ truncate_http_err s
truncate-truncate s = truncate_http_err_short (truncate_http_err s) (length-truncate_http_err s)

other_known : is_label unreach_other unreach_labels ≡ true
unfolding is_label
other_known = refl

-- The closed set of labels, with the empty text for "no label".
pub canonical_unreach_closed :
    (s : Str) → (canonical_unreach s ≡ []) ⊎ (is_label (canonical_unreach s) unreach_labels ≡ true)
unfolding canonical_unreach
canonical_unreach_closed s = elim (Bool-cases (str_beq s [])) [
  | inl empty ↦ rw empty (inl refl)
  | inr some_text ↦ elim (Bool-cases (is_label s unreach_labels)) [
    | inl known ↦ rw (some_text, known) (inr known)
    | inr unknown ↦ rw (some_text, unknown) (inr other_known)
  ]
]

pub unreach-unreach : (s : Str) → canonical_unreach (canonical_unreach s) ≡ canonical_unreach s
unfolding canonical_unreach
unreach-unreach s = elim (Bool-cases (str_beq s [])) [
  | inl empty ↦ rw empty refl
  | inr some_text ↦ elim (Bool-cases (is_label s unreach_labels)) [
    | inl known ↦ rw (some_text, known, some_text, known) refl
    | inr unknown ↦ rw (some_text, unknown) refl
  ]
]
