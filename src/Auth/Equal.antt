-- ===== src/Auth/Equal.antt =====
-- The comparison in constant time is an equality.
use Prim.Native.Nat.{max, bit_or, bit_xor}
use llmgate.Prelude.{
  ℕ, zero, suc, ◌+◌, ◌≤◌, ◌<◌, ◌≡◌, ◌∙◌, ◌↔◌, refl, sym, ap, true, [], ◌∷◌, Text, length, ◌==◌,
  ==_iff, Bool-cases, inl, inr, arith,
}
use llmgate.Auth.{byte_or_zero, diff_from, ct_eq}
use llmgate.Auth.Bits.{bit_or_zero, bit_xor_zero, bit_xor_self}

module _ (a b : Text) where
  diff_from_zero :
      (rounds i diff : ℕ)
      → diff_from a b rounds i diff ≡ 0
      → (diff ≡ 0) × ((j : ℕ) → i ≤ j → j < i + rounds → byte_or_zero a j ≡ byte_or_zero b j)
  unfolding diff_from
  diff_from_zero zero i diff h = (h, λ j low high. absurd (omega arith))
  diff_from_zero (suc rounds) i diff h =
      let later = diff_from_zero rounds (i + 1) _ h in
      let here = bit_or_zero diff _ later.0 in
      let same : byte_or_zero a i ≡ byte_or_zero b i = bit_xor_zero _ _ here.1 in
      (
        here.0,
        λ j low high. elim (Bool-cases (j == i)) [
          | inl at_i ↦
              let e : j ≡ i = (==_iff j i).0 at_i in
              ap (byte_or_zero a) e ∙ same ∙ sym (ap (byte_or_zero b) e)
          | inr later_on ↦ later.1 j (ground arith) (ground arith)
        ],
      )

  diff_from_self : (rounds i diff : ℕ) → a ≡ b → diff ≡ 0 → diff_from a b rounds i diff ≡ 0
  unfolding diff_from
  diff_from_self zero i diff same none_yet = none_yet
  diff_from_self (suc rounds) i diff same none_yet = diff_from_self rounds (i + 1) _ same (
      ap (λ d. bit_or d (bit_xor (byte_or_zero a i) (byte_or_zero b i))) none_yet
      ∙ ap (λ s. bit_or 0 (bit_xor (byte_or_zero s i) (byte_or_zero b i))) same
      ∙ ap (bit_or 0) (bit_xor_self (byte_or_zero b i)))

-- Texts of the same length with the same bytes.
same_bytes :
    (a b : Text)
    → length a ≡ length b
    → ((k : ℕ) → k < length a → byte_or_zero a k ≡ byte_or_zero b k)
    → a ≡ b
same_bytes [] [] size bytes = refl
same_bytes [] (c ∷ b) size bytes = absurd (omega arith)
same_bytes (c ∷ a) [] size bytes = absurd (omega arith)
same_bytes (c ∷ a) (d ∷ b) size bytes =
    let head : c ≡ d = bytes 0 (omega arith) in
    let tail : a ≡ b =
      same_bytes a b (omega (arith, size)) (λ k below. bytes (suc k) (omega (arith, below))) in
    cc

-- The comparison of a key with the presented one is an equality: of their lengths and all of their
-- bytes, although it never stops early.
pub ct_eq_iff : (a b : Text) → (ct_eq a b ≡ true) ↔ (a ≡ b)
unfolding ct_eq
ct_eq_iff a b = (
  λ equal.
      let none_left = (==_iff _ 0).0 equal in
      let all_same = diff_from_zero a b (max (length a) (length b)) 0 _ none_left in
      let sizes = bit_xor_zero (length a) (length b) all_same.0 in
      same_bytes a b sizes (λ k below. all_same.1 k (omega arith) (omega arith)),
  λ same. (==_iff _ 0).1 (
      diff_from_self a b (max (length a) (length b)) 0 _ same
        (ap (λ s. bit_xor (length s) (length b)) same ∙ bit_xor_self (length b))),
)
