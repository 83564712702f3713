-- ===== src/Prelude/Lists.antt =====
-- Lists measured and cut by native numbers, under the library's names, and predicates on lists.
use Prim.Native.Nat.{ℕ, zero, suc, ◌+◌, ◌-◌, ◌≤◌}
use mathlib.Core.Path.{◌≡◌, refl, sym, ap, ◌∙◌}
use mathlib.Core.Bool.{Bool, true, false, ◌&&◌, ◌||◌}
use mathlib.Core.List.{List, [], ◌∷◌, ◌++◌}
use native.Mathlib.Omega.{arith}

module _ {ℓ} {A : Type ℓ} where
  abbrev pub length : List A → ℕ
  length [] = 0
  length (x ∷ xs) = suc (length xs)

  abbrev pub take : ℕ → List A → List A
  take zero xs = []
  take (suc n) [] = []
  take (suc n) (x ∷ xs) = x ∷ take n xs

  abbrev pub drop : ℕ → List A → List A
  drop zero xs = xs
  drop (suc n) [] = []
  drop (suc n) (x ∷ xs) = drop n xs

  abbrev pub any : (A → Bool) → List A → Bool
  any p [] = false
  any p (x ∷ xs) = p x || any p xs

  abbrev pub all : (A → Bool) → List A → Bool
  all p [] = true
  all p (x ∷ xs) = p x && all p xs

  pub length-append : (xs ys : List A) → length (xs ++ ys) ≡ length xs + length ys
  length-append [] ys = omega arith
  length-append (x ∷ xs) ys = omega (arith, length-append xs ys)

  pub take-append-drop : (n : ℕ) (xs : List A) → take n xs ++ drop n xs ≡ xs
  take-append-drop zero xs = refl
  take-append-drop (suc n) [] = refl
  take-append-drop (suc n) (x ∷ xs) = rw (take-append-drop n xs)

  pub take-length-append : (xs ys : List A) → take (length xs) (xs ++ ys) ≡ xs
  take-length-append [] ys = refl
  take-length-append (x ∷ xs) ys = ap (λ zs. x ∷ zs) (take-length-append xs ys)

  pub drop-length-append : (xs ys : List A) → drop (length xs) (xs ++ ys) ≡ ys
  drop-length-append [] ys = refl
  drop-length-append (x ∷ xs) ys = drop-length-append xs ys

  drop-nil : (n : ℕ) → drop n [] ≡ []
  drop-nil zero = refl
  drop-nil (suc n) = refl

  pub drop-drop : (m n : ℕ) (xs : List A) → drop n (drop m xs) ≡ drop (m + n) xs
  drop-drop zero n xs = ap (λ k. drop k xs) (omega arith)
  drop-drop (suc m) n [] = drop-nil n ∙ sym (drop-nil (suc m + n))
  drop-drop (suc m) n (x ∷ xs) =
      let next : suc (m + n) ≡ suc m + n = omega arith in
      drop-drop m n xs ∙ ap (λ k. drop k (x ∷ xs)) next

  pub length-drop : (n : ℕ) (xs : List A) → length (drop n xs) ≡ length xs - n
  length-drop zero xs = omega arith
  length-drop (suc n) [] = omega arith
  length-drop (suc n) (x ∷ xs) = omega (arith, length-drop n xs)

  -- Cancelling a common front.
  pub append_cancel : (xs : List A) {ys zs : List A} → xs ++ ys ≡ xs ++ zs → ys ≡ zs
  append_cancel [] h = h
  append_cancel (x ∷ xs) h = append_cancel xs (cc h)

  pub append_inj :
      (xs ys : List A) {us vs : List A}
      → xs ++ us ≡ ys ++ vs
      → length xs ≡ length ys
      → (xs ≡ ys) × (us ≡ vs)
  append_inj [] [] e h = (refl, e)
  append_inj [] (y ∷ ys) e h = absurd (omega arith)
  append_inj (x ∷ xs) [] e h = absurd (omega arith)
  append_inj (x ∷ xs) (y ∷ ys) {us} {vs} e h =
      let ih : (xs ≡ ys) × (us ≡ vs) = append_inj xs ys (cc e) (omega arith) in (cc, ih.1)

  -- Of two ways to split a list, the longer front extends the shorter.
  pub append_split :
      (xs ys us vs : List A)
      → xs ++ us ≡ ys ++ vs
      → length ys ≤ length xs
      → (zs : List A) × (xs ≡ ys ++ zs) × (vs ≡ zs ++ us)
  append_split xs [] us vs e h = (xs, refl, sym e)
  append_split [] (y ∷ ys) us vs e h = absurd (omega arith)
  append_split (x ∷ xs) (y ∷ ys) us vs e h =
      let ih : (zs : List A) × (xs ≡ ys ++ zs) × (vs ≡ zs ++ us) =
        append_split xs ys us vs (cc e) (omega arith) in
      (ih.0, cc, ih.2)

module _ {ℓ κ} {A : Type ℓ} (P : A → Type κ) where
  abbrev pub All : List A → Type κ
  All [] = Unit
  All (x ∷ xs) = P x × All xs

  pub All-append : (xs ys : List A) → All xs → All ys → All (xs ++ ys)
  All-append [] ys hx hy = hy
  All-append (x ∷ xs) ys (px, hx) hy = (px, All-append xs ys hx hy)

  pub All-append_left : (xs ys : List A) → All (xs ++ ys) → All xs
  All-append_left [] ys h = tt
  All-append_left (x ∷ xs) ys (px, h) = (px, All-append_left xs ys h)

  pub All-append_right : (xs ys : List A) → All (xs ++ ys) → All ys
  All-append_right [] ys h = h
  All-append_right (x ∷ xs) ys (px, h) = All-append_right xs ys h

-- What holds of one predicate holds of a weaker one.
pub All_mono {ℓ κ μ} :
    {A : Type ℓ} (P : A → Type κ) (Q : A → Type μ)
    → ((x : A) → P x → Q x)
    → (xs : List A) → All P xs
    → All Q xs
All_mono P Q f [] h = tt
All_mono P Q f (x ∷ xs) (p, h) = (f x p, All_mono P Q f xs h)

pub All-zip {ℓ κ μ} :
    {A : Type ℓ} (P : A → Type κ) (Q : A → Type μ) (xs : List A)
    → All P xs
    → All Q xs
    → All (λ x. P x × Q x) xs
All-zip P Q [] p q = tt
All-zip P Q (x ∷ xs) (p, ps) (q, qs) = ((p, q), All-zip P Q xs ps qs)

-- Of a list whose members cannot be there nothing is left.
pub nil_of_All {ℓ κ} :
    {A : Type ℓ} (P : A → Type κ) → ((x : A) → P x → ⊥) → (xs : List A) → All P xs → xs ≡ []
nil_of_All P none [] h = refl
nil_of_All P none (x ∷ xs) (p, h) = absurd (none x p)

pub All_of_any-false {ℓ} :
    {A : Type ℓ} (p : A → Bool) (xs : List A) → any p xs ≡ false → All (λ x. p x ≡ false) xs
All_of_any-false p [] h = tt
All_of_any-false p (x ∷ xs) h = (ground arith, All_of_any-false p xs (ground arith))
