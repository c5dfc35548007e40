-- ===== src/Probe.antt =====
-- internal/probe/trace.go and internal/probe/http.go: the two texts of a probe that cluster ingest
-- folds, an unreachable label and the error of an http request.
pub mod HttpErr
use smokeping_go.Common.{
  ℕ, zero, suc, ◌-◌, ◌/◌, Bool, not, List, [], ◌∷◌, ◌++◌, leb, nat_beq, if◌then◌else◌, Str, bytes,
  str_beq, length, take, drop, get_or,
}

abbrev pub unreach_other : Str
unreach_other = bytes "unreachable-other"

-- The keys of `unreachLabels`.
abbrev pub unreach_labels : List Str
unreach_labels =
    bytes "net-unreachable"
    ∷ bytes "host-unreachable"
    ∷ bytes "proto-unreachable"
    ∷ bytes "port-unreachable"
    ∷ bytes "frag-needed"
    ∷ bytes "source-route-failed"
    ∷ bytes "admin-prohibited"
    ∷ bytes "no-route"
    ∷ bytes "beyond-scope"
    ∷ bytes "addr-unreachable"
    ∷ bytes "policy-fail"
    ∷ bytes "reject-route"
    ∷ unreach_other
    ∷ []

unfoldable pub is_label : Str → List Str → Bool
is_label s [] = Bool.false
is_label s (l ∷ ls) = if str_beq s l then Bool.true else is_label s ls

unfoldable pub canonical_unreach : Str → Str
unfolding is_label
canonical_unreach s =
    if str_beq s [] then [] else if is_label s unreach_labels then s else unreach_other

abbrev pub max_http_err_len : ℕ
max_http_err_len = 4096

-- The mark in UTF-8: an ellipsis has three bytes.
abbrev pub err_truncation_mark : Str
err_truncation_mark = 226 ∷ 128 ∷ 166 ∷ bytes "(truncated)" ++ 226 ∷ 128 ∷ 166 ∷ []

-- utf8.RuneStart: not a continuation byte, whose two highest bits are 10.
abbrev pub rune_start : ℕ → Bool
rune_start b = not (nat_beq (b / 64) 2)

-- The loop that moves `head` back.
unfoldable pub head_cut : Str → ℕ → ℕ
head_cut s zero = zero
head_cut s (suc head) =
    let rest = head_cut s head in if rune_start (get_or s (suc head) 0) then suc head else rest

-- The loop that moves `tail` on, over what stands from it.
unfoldable pub tail_cut : Str → Str
tail_cut [] = []
tail_cut (b ∷ s) = if rune_start b then b ∷ s else tail_cut s

unfoldable pub truncate_http_err : Str → Str
unfolding head_cut tail_cut
truncate_http_err s =
    if leb (length s) max_http_err_len
    then s
    else (let budget = max_http_err_len - length err_truncation_mark in
        let head = head_cut s (budget / 2) in
        take head s ++ err_truncation_mark ++ tail_cut (drop (length s - (budget - head)) s))
