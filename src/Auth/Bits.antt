-- ===== src/Auth/Bits.antt =====
-- When an exclusive or, and an or, of two numbers is 0.
use Prim.Native.Nat.{max, digits, differ, bit_or, bit_xor, bit_or-bitwise, bit_xor-bitwise}
use native.Mathlib.Nat.{le_refl}
use llmgate.Prelude.{ℕ, zero, suc, ◌/◌, ◌%◌, ◌≤◌, ◌≡◌, refl, sym, ◌∙◌, arith}

differ_zero : (x y : ℕ) → differ x y ≡ 0 → x ≡ y
differ_zero zero y h = sym h
differ_zero (suc x) zero h = absurd (omega (arith, h))
differ_zero (suc x) (suc y) h = omega (arith, differ_zero x y h)

differ_self : (x : ℕ) → differ x x ≡ 0
differ_self zero = refl
differ_self (suc x) = differ_self x

or_digits : (n a b : ℕ) → a ≤ n → digits (λ b. b) max n a b ≡ 0 → (a ≡ 0) × (b ≡ 0)
or_digits zero a b small h = (omega arith, omega (arith, h))
or_digits (suc n) zero b small h = (refl, h)
or_digits (suc n) (suc a) b small h =
    let rest = or_digits n (suc a / 2) (b / 2) (omega arith) (omega (arith, h)) in
    (omega (arith, h, rest.0, rest.1), omega (arith, h, rest.0, rest.1))

xor_digits : (n a b : ℕ) → a ≤ n → digits (λ b. b) differ n a b ≡ 0 → a ≡ b
xor_digits zero a b small h = omega (arith, h)
xor_digits (suc n) zero b small h = sym h
xor_digits (suc n) (suc a) b small h =
    let rest = xor_digits n (suc a / 2) (b / 2) (omega arith) (omega (arith, h)) in
    let low = differ_zero (suc a % 2) (b % 2) (omega (arith, h)) in omega (arith, rest, low)

xor_digits_self : (n a : ℕ) → a ≤ n → digits (λ b. b) differ n a a ≡ 0
xor_digits_self zero a small = omega arith
xor_digits_self (suc n) zero small = refl
xor_digits_self (suc n) (suc a) small =
    omega (arith, xor_digits_self n (suc a / 2) (omega arith), differ_self (suc a % 2))

pub bit_or_zero : (a b : ℕ) → bit_or a b ≡ 0 → (a ≡ 0) × (b ≡ 0)
bit_or_zero a b h = or_digits a a b (le_refl a) (sym (bit_or-bitwise a b) ∙ h)

pub bit_or_zeros : bit_or 0 0 ≡ 0
bit_or_zeros = refl

pub bit_xor_zero : (a b : ℕ) → bit_xor a b ≡ 0 → a ≡ b
bit_xor_zero a b h = xor_digits a a b (le_refl a) (sym (bit_xor-bitwise a b) ∙ h)

pub bit_xor_self : (a : ℕ) → bit_xor a a ≡ 0
bit_xor_self a = bit_xor-bitwise a a ∙ xor_digits_self a a (le_refl a)
