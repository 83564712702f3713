-- ===== src/Prelude/Decimal.antt =====
-- `u64::to_string`: the decimal digits of a number, without leading zeros.
use Prim.Native.Nat.{ℕ, zero, suc, ◌+◌, ◌-◌, ◌*◌, ◌/◌, ◌%◌, ◌^◌, ◌≤◌, ◌<◌}
use native.Mathlib.Nat.{pow-suc}
use mathlib.Core.Path.{◌≡◌, refl, sym, ap, ◌∙◌}
use mathlib.Core.Logic.{◌≢◌, inl, inr}
use mathlib.Core.Bool.{Bool, true, false, ◌&&◌}
use mathlib.Core.List.{[], ◌∷◌, ◌++◌, append_assoc, append-nil}
use native.Mathlib.Omega.{arith}
use llmgate.Prelude.Tests.{ltb, leb, Bool-cases, if◌then◌else◌}
use llmgate.Prelude.Lists.{All, All-append, length, length-append}
use llmgate.Prelude.Strings.{Text}

-- `u8::is_ascii_digit`
abbrev pub is_ascii_digit : ℕ → Bool
is_ascii_digit c = leb b'0' c && leb c b'9'

abbrev pub IsDigit : ℕ → Type 0
IsDigit c = (b'0' ≤ c) × (c ≤ b'9')

decimal_fuel : ℕ → ℕ → Text
decimal_fuel zero n = []
decimal_fuel (suc f) n =
    let rest = decimal_fuel f (n / 10) ++ (b'0' + n % 10) ∷ [] in
    if ltb n 10 then (b'0' + n) ∷ [] else rest

-- Each round divides by ten, so that `n + 1` rounds are enough.
unfoldable pub decimal : ℕ → Text
unfolding decimal_fuel
decimal n = decimal_fuel (suc n) n

-- The number that digits denote, behind those already read.
value_from : ℕ → Text → ℕ
value_from acc [] = acc
value_from acc (c ∷ s) = value_from (acc * 10 + (c - b'0')) s

value_from-append :
    (acc c : ℕ) (s : Text) → value_from acc (s ++ c ∷ []) ≡ value_from acc s * 10 + (c - b'0')
unfolding value_from
value_from-append acc c [] = refl
value_from-append acc c (d ∷ s) = value_from-append (acc * 10 + (d - b'0')) c s

value_from_pos : (n : ℕ) (s : Text) → 0 < n → 0 < value_from n s
unfolding value_from
value_from_pos n [] p = p
value_from_pos n (c ∷ s) p = value_from_pos (n * 10 + (c - b'0')) s (omega arith)

value-decimal_fuel : (f n : ℕ) → n < f → value_from 0 (decimal_fuel f n) ≡ n
unfolding decimal_fuel
value-decimal_fuel zero n h = elim h [ ]
value-decimal_fuel (suc f) n h = elim (Bool-cases (ltb n 10)) [
  | inl small ↦ rw small (unfold value_from in omega arith)
  | inr large ↦
      rw (large, value_from-append, value-decimal_fuel f (n / 10) (ground arith)) (omega arith)
]

pub decimal_injective : (m n : ℕ) → decimal m ≡ decimal n → m ≡ n
unfolding decimal
decimal_injective m n h =
    sym (value-decimal_fuel (suc m) m (omega arith))
    ∙ ap (value_from 0) h
    ∙ value-decimal_fuel (suc n) n (omega arith)

decimal_fuel-IsDigit : (f n : ℕ) → All IsDigit (decimal_fuel f n)
unfolding decimal_fuel
decimal_fuel-IsDigit zero n = tt
decimal_fuel-IsDigit (suc f) n = elim (Bool-cases (ltb n 10)) [
  | inl small ↦ rw small (ground arith)
  | inr large ↦ rw large (
      All-append IsDigit (decimal_fuel f (n / 10)) _ (decimal_fuel-IsDigit f (n / 10))
        (omega arith))
]

pub decimal-IsDigit : (n : ℕ) → All IsDigit (decimal n)
unfolding decimal
decimal-IsDigit n = decimal_fuel-IsDigit (suc n) n

-- A positive number is written with a first digit, which is not zero.
abbrev pub LeadsNonzero : Text → Type 0
LeadsNonzero [] = ⊥
LeadsNonzero (c ∷ s) = c ≢ b'0'

LeadsNonzero-append : (s t : Text) → LeadsNonzero s → LeadsNonzero (s ++ t)
LeadsNonzero-append [] t h = absurd h
LeadsNonzero-append (c ∷ s) t h = h

decimal_fuel-LeadsNonzero : (f n : ℕ) → n < f → 0 < n → LeadsNonzero (decimal_fuel f n)
unfolding decimal_fuel
decimal_fuel-LeadsNonzero zero n h p = elim h [ ]
decimal_fuel-LeadsNonzero (suc f) n h p = elim (Bool-cases (ltb n 10)) [
  | inl small ↦ rw small (omega arith)
  | inr large ↦ rw large (
      LeadsNonzero-append (decimal_fuel f (n / 10)) _
        (decimal_fuel-LeadsNonzero f (n / 10) (ground arith) (ground arith)))
]

pub decimal-LeadsNonzero : (n : ℕ) → 0 < n → LeadsNonzero (decimal n)
unfolding decimal
decimal-LeadsNonzero n p = decimal_fuel-LeadsNonzero (suc n) n (omega arith) p

length-decimal_fuel : (f n k : ℕ) → n < 10 ^ suc k → length (decimal_fuel f n) ≤ suc k
unfolding decimal_fuel
length-decimal_fuel zero n k h = omega arith
length-decimal_fuel (suc f) n zero h =
    let small : ltb n 10 ≡ true = ground (arith, pow-suc 10 0) in rw small (omega arith)
length-decimal_fuel (suc f) n (suc k) h = elim (Bool-cases (ltb n 10)) [
  | inl small ↦ rw small (omega arith)
  | inr large ↦
      rw (large, length-append)
        (omega (arith, length-decimal_fuel f (n / 10) k (omega (arith, pow-suc 10 (suc k)))))
]

-- A number below 10 ^ k has at most k digits.
pub length-decimal-le : (n k : ℕ) → n < 10 ^ suc k → length (decimal n) ≤ suc k
unfolding decimal
length-decimal-le n k h = length-decimal_fuel (suc n) n k h

decimal_fuel-enough : (f g n : ℕ) → n < f → n < g → decimal_fuel f n ≡ decimal_fuel g n
unfolding decimal_fuel
decimal_fuel-enough zero g n h k = elim h [ ]
decimal_fuel-enough (suc f) zero n h k = elim k [ ]
decimal_fuel-enough (suc f) (suc g) n h k = elim (Bool-cases (ltb n 10)) [
  | inl small ↦ rw small
  | inr large ↦ rw (large, decimal_fuel-enough f g (n / 10) (ground arith) (ground arith))
]

-- A digit more.
pub decimal-push : (n d : ℕ) → 0 < n → d < 10 → decimal (n * 10 + d) ≡ decimal n ++ (b'0' + d) ∷ []
unfolding decimal decimal_fuel
decimal-push n d p h =
    let large : ltb (n * 10 + d) 10 ≡ false = ground arith in
    let front : (n * 10 + d) / 10 ≡ n = omega arith in
    let back : (n * 10 + d) % 10 ≡ d = omega arith in
    rw (large, front, back)
      (ap (λ s. s ++ (b'0' + d) ∷ [])
        (decimal_fuel-enough (n * 10 + d) (suc n) n (omega arith) (omega arith)))

decimal-value_from :
    (n : ℕ) (s : Text) → 0 < n → All IsDigit s → decimal (value_from n s) ≡ decimal n ++ s
unfolding value_from
decimal-value_from n [] p h = sym (append-nil (decimal n))
decimal-value_from n (c ∷ s) p (d, h) =
    let digit : b'0' + (c - b'0') ≡ c = omega arith in
    decimal-value_from (n * 10 + (c - b'0')) s (omega arith) h
    ∙ rw (decimal-push n (c - b'0') p (omega arith), digit, append_assoc)

-- The number that digits without a leading zero denote is written by these digits.
pub value : Text → ℕ
value s = value_from 0 s

pub decimal-value : (s : Text) → All IsDigit s → LeadsNonzero s → decimal (value s) ≡ s
unfolding value value_from decimal decimal_fuel
decimal-value [] h l = absurd l
decimal-value (c ∷ s) (d, h) l =
    let small : ltb (c - b'0') 10 ≡ true = ground arith in
    let digit : b'0' + (c - b'0') ≡ c = omega arith in
    let none_yet : 0 + (c - b'0') ≡ c - b'0' = omega arith in
    rw none_yet (decimal-value_from (c - b'0') s (ground arith) h ∙ rw (small, digit))

pub value_pos : (s : Text) → All IsDigit s → LeadsNonzero s → 0 < value s
unfolding value value_from
value_pos [] h l = absurd l
value_pos (c ∷ s) (d, h) l =
    let none_yet : 0 + (c - b'0') ≡ c - b'0' = omega arith in
    rw none_yet (value_from_pos (c - b'0') s (ground arith))

decimal_run : decimal 4096 ≡ b'4' ∷ b'0' ∷ b'9' ∷ b'6' ∷ []
unfolding decimal
decimal_run = refl
