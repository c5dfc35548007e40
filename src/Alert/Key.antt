-- ===== src/Alert/Key.antt =====
-- internal/alert/evaluator.go: aggKey, the pair of a target and an alert that keys the evaluator's
-- maps.
use smokeping_go.Common.{◌≡◌, ap, ap₂, ◌↔◌, Bool, true, ◌&&◌, arith, Str, str_beq, str_beq_iff, Eq}

abbrev pub AggKey : Type 0
AggKey = Str × Str

abbrev pub key_beq : AggKey → AggKey → Bool
key_beq (t, a) (u, b) = str_beq t u && str_beq a b

pub key_beq_iff : (j k : AggKey) → (key_beq j k ≡ true) ↔ (j ≡ k)
key_beq_iff (t, a) (u, b) = (
  λ h.
      ap₂ (λ x y. (x, y)) ((str_beq_iff t u).0 (ground arith)) ((str_beq_iff a b).0 (ground arith)),
  λ e. ground (arith, (str_beq_iff t u).1 (ap (λ p. p.0) e), (str_beq_iff a b).1 (ap (λ p. p.1) e)),
)

instance abbrev pub key_eq : Eq AggKey
key_eq = record { beq = key_beq; beq_iff = key_beq_iff }
