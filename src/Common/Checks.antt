-- ===== src/Common/Checks.antt =====
-- Validation in Go's style: a chain of `if bad { return e }`, whose error is the first and `none` is
-- nil, and the lemmas that read a chain as the product of its conditions.
use Prim.Native.Nat.{ℕ, ◌≤◌}
use mathlib.Core.Path.{◌≡◌, refl}
use mathlib.Core.Logic.{◌↔◌}
use mathlib.Core.Bool.{Bool, true, false}
use mathlib.Core.List.{List, [], ◌∷◌}
use mathlib.Core.Option.{Option, none, some}
use native.Mathlib.Omega.{arith}
use smokeping_go.Common.Tests.{ltb, if◌then◌else◌}
use smokeping_go.Common.Lists.{All}

-- `if err := f(); err != nil { return err }` before the rest of a function.
infixr 4 ◌<|>◌
abbrev pub ◌<|>◌ : {E : Type 0} → Option E → Option E → Option E
none <|> rest = rest
some e <|> rest = some e

abbrev pub refuse : {E : Type 0} → Bool → E → Option E
refuse bad e = if bad then some e else none

-- The first error of a loop.
unfoldable pub each {ℓ} : {A : Type ℓ} {E : Type 0} → (A → Option E) → List A → Option E
each check [] = none
each check (x ∷ xs) = check x <|> each check xs

infixr 8 ◌&◌
abbrev pub ◌&◌ : Type 0 → Type 0 → Type 0
P & Q = P × Q

-- A check that passes exactly if a condition holds.
abbrev pub Checks : {E : Type 0} → Option E → Type 0 → Type 0
Checks check P = (check ≡ none) ↔ P

infixr 8 ◌and◌
pub ◌and◌ : {E P Q : Type 0} {a b : Option E} → Checks a P → Checks b Q → Checks (a <|> b) (P & Q)
◌and◌ {a = none} h k = (λ e. (h.0 refl, k.0 e), λ both. k.1 both.1)
◌and◌ {a = some e} h k = (λ f. absurd (ground arith), λ both. absurd (ground (arith, h.1 both.0)))

pub refusing : {E P : Type 0} (bad : Bool) (e : E) → ((bad ≡ false) ↔ P) → Checks (refuse bad e) P
refusing true e h = (λ f. absurd (ground arith), λ p. absurd (ground (arith, h.1 p)))
refusing false e h = (λ _. h.0 refl, λ _. refl)

pub checking_each {ℓ} :
    {A : Type ℓ} {E : Type 0} (P : A → Type 0) (check : A → Option E) (xs : List A)
    → ((x : A) → Checks (check x) (P x))
    → Checks (each check xs) (All P xs)
unfolding each
checking_each P check [] h = (λ _. tt, λ _. refl)
checking_each P check (x ∷ xs) h = h x and checking_each P check xs h

pub ltb_iff : (a b : ℕ) → (ltb a b ≡ false) ↔ (b ≤ a)
ltb_iff a b = (λ e. ground (arith, e), λ le. ground (arith, le))
