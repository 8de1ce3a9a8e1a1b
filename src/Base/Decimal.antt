-- ===== src/Base/Decimal.antt =====
-- Decimal print of numbers, as a template string prints them.
use Prim.Native.Nat.{ℕ, zero, suc, ◌+◌, ◌-◌, ◌*◌, ◌/◌, ◌%◌, ◌<◌}
use mathlib.Core.Path.{◌≡◌, refl, ap, ◌∙◌}
use mathlib.Core.Logic.{inl, inr}
use mathlib.Core.Bool.{true}
use mathlib.Core.List.{[], ◌∷◌}
use native.Mathlib.Omega.{arith}
use nats_js.Base.Int.{ℤ, pos, negsuc}
use nats_js.Base.Strings.{Text, is_digit, decimal_from, All}
use nats_js.Base.Tests.{◌==◌, if◌then◌else◌, Bool-cases}

-- The digits of a number below 10 ^ fuel, in front of `out`.
unfoldable pub print_digits : ℕ → ℕ → Text → Text
print_digits zero n out = out
print_digits (suc k) n out =
    let more = print_digits k (n / 10) ((48 + n % 10) ∷ out) in
    if n / 10 == 0 then (48 + n % 10) ∷ out else more

-- `${n}` for a whole number; a number has less digits than its value and one more.
unfoldable pub print_ℕ : ℕ → Text
unfolding print_digits
print_ℕ n = print_digits (suc n) n []

unfoldable pub print_ℤ : ℤ → Text
unfolding print_ℕ
print_ℤ (pos n) = print_ℕ n
print_ℤ (negsuc n) = b'-' ∷ print_ℕ (suc n)

decimal_from-print_digits :
    (k n : ℕ) (out : Text) → n < k → decimal_from 0 (print_digits k n out) ≡ decimal_from n out
unfolding print_digits
decimal_from-print_digits zero n out h = absurd (omega arith)
decimal_from-print_digits (suc k) n out h = elim (Bool-cases (n / 10 == 0)) [
  | inl e ↦
      let d : 0 * 10 + (48 + n % 10 - 48) ≡ n = ground arith in
      rw e (ap (λ x. decimal_from x out) d)
  | inr e ↦
      let small : n / 10 < k = ground arith in
      let d : n / 10 * 10 + (48 + n % 10 - 48) ≡ n = omega arith in
      rw e (
        decimal_from-print_digits k (n / 10) ((48 + n % 10) ∷ out) small
        ∙ ap (λ x. decimal_from x out) d)
]

-- The digits of a print are read back to the number.
pub decimal_from-print_ℕ : (n : ℕ) → decimal_from 0 (print_ℕ n) ≡ n
unfolding print_ℕ
decimal_from-print_ℕ n = decimal_from-print_digits (suc n) n [] (omega arith)

print_digits-All : (k n : ℕ) (out : Text) → All is_digit out → All is_digit (print_digits k n out)
unfolding print_digits
print_digits-All zero n out h = h
print_digits-All (suc k) n out h =
    let d : is_digit (48 + n % 10) ≡ true = ground arith in
    ground (arith, print_digits-All k (n / 10) ((48 + n % 10) ∷ out) (d, h))

pub print_ℕ-All : (n : ℕ) → All is_digit (print_ℕ n)
unfolding print_ℕ
print_ℕ-All n = print_digits-All (suc n) n [] tt

-- Digits stand in front of what was there.
print_digits-cons :
    (k n : ℕ) (c : ℕ) (out : Text) → (d : ℕ) × (t : Text) × (print_digits k n (c ∷ out) ≡ d ∷ t)
unfolding print_digits
print_digits-cons zero n c out = (c, out, refl)
print_digits-cons (suc k) n c out = elim (Bool-cases (n / 10 == 0)) [
  | inl e ↦ (48 + n % 10, c ∷ out, rw e refl)
  | inr e ↦ let r = print_digits-cons k (n / 10) (48 + n % 10) (c ∷ out) in (r.0, r.1, rw e r.2)
]

pub print_ℕ-cons : (n : ℕ) → (d : ℕ) × (t : Text) × (print_ℕ n ≡ d ∷ t)
unfolding print_ℕ print_digits
print_ℕ-cons n = elim (Bool-cases (n / 10 == 0)) [
  | inl e ↦ (48 + n % 10, [], rw e refl)
  | inr e ↦ let r = print_digits-cons n (n / 10) (48 + n % 10) [] in (r.0, r.1, rw e r.2)
]
