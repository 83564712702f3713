-- ===== src/Privacy/Template/Namespace.antt =====
-- The check on pairs of token names: it refuses exactly the pairs that could share a token.
use mathlib.Core.Path.{subst}
use llmgate.Prelude.{
  ℕ, ◌+◌, ◌*◌, ◌≤◌, ◌<◌, ◌≡◌, refl, sym, ap, ◌∙◌, ◌↔◌, ◌≢◌, ◌⊎◌, inl, inr, true, false, not, ◌&&◌,
  [], ◌∷◌, ◌++◌, append_assoc, append-nil, Text, text, is_empty, length, all, arith, leb,
  Bool-cases, All, length-append, drop-length-append, append_split, append_inj, All-append_left,
}
use llmgate.Prelude.Strings.{starts_with, starts_with-append, append_of_starts_with}
use llmgate.Prelude.Decimal.{
  is_ascii_digit, decimal, IsDigit, LeadsNonzero, decimal-IsDigit, decimal-LeadsNonzero,
  decimal_injective, value, decimal-value, value_pos, decimal-push,
}
use llmgate.Privacy.Template.{suffix_collides, digit_suffix_collides}
use llmgate.Privacy.Template.Grammar.{token_of}

-- A suffix that a counter could have written.
abbrev IsCounter : Text → Type 0
IsCounter s = All IsDigit s × LeadsNonzero s

all_digits_of_All : (s : Text) → All IsDigit s → all is_ascii_digit s ≡ true
all_digits_of_All [] h = refl
all_digits_of_All (c ∷ s) (p, h) = ground (arith, all_digits_of_All s h)

All_of_all_digits : (s : Text) → all is_ascii_digit s ≡ true → All IsDigit s
All_of_all_digits [] h = tt
All_of_all_digits (c ∷ s) h = (ground arith, All_of_all_digits s (ground arith))

suffix_collides-append :
    (short zs : Text) → IsCounter zs → suffix_collides (short ++ zs) short ≡ true
unfolding suffix_collides starts_with
suffix_collides-append short [] (digits, leads) = absurd leads
suffix_collides-append short (z ∷ zs) (digits, leads) =
    rw (starts_with-append short (z ∷ zs), drop-length-append short (z ∷ zs))
      (ground (arith, all_digits_of_All (z ∷ zs) digits))

-- What the check finds behind the shorter name.
IsCounter-of_suffix :
    (long short : Text)
    → suffix_collides long short ≡ true
    → (zs : Text) × IsCounter zs × (long ≡ short ++ zs)
unfolding suffix_collides
IsCounter-of_suffix long short h =
    let (zs, e) = append_of_starts_with short long (ground arith) in
    let rest : (not (is_empty zs) && all is_ascii_digit zs && not (starts_with (text "0") zs))
        ≡ true =
      rw (e, starts_with-append short zs, drop-length-append short zs) at h in
    (zs, counter zs rest, e)
  where
    counter :
        (zs : Text)
        → (not (is_empty zs) && all is_ascii_digit zs && not (starts_with (text "0") zs)) ≡ true
        → IsCounter zs
    counter [] rest = cc
    counter (z ∷ zs) rest =
        (All_of_all_digits (z ∷ zs) (ground arith), unfold starts_with in ground arith)

-- Of two names that share a token the longer is the shorter with a counter's digits behind it.
suffix_of_token :
    (long short : Text) (n m : ℕ)
    → length short ≤ length long
    → 0 < m
    → token_of long n ≡ token_of short m
    → (zs : Text) × (long ≡ short ++ zs) × ((zs ≡ []) × (n ≡ m) ⊎ IsCounter zs)
suffix_of_token long short n m h p e =
    let (zs, front, back) =
      append_split long short (decimal n ++ b'>' ∷ []) (decimal m ++ b'>' ∷ []) (cc e) h in
    let bracket : decimal m ++ b'>' ∷ [] ≡ (zs ++ decimal n) ++ b'>' ∷ [] =
      back ∙ sym (append_assoc zs (decimal n) (b'>' ∷ [])) in
    let same : decimal m ≡ zs ++ decimal n =
      (append_inj (decimal m) (zs ++ decimal n) bracket
        (cancel (decimal m) (zs ++ decimal n) bracket)).0 in
    (zs, front, decide zs same)
  where
    cancel : (s t : Text) → s ++ b'>' ∷ [] ≡ t ++ b'>' ∷ [] → length s ≡ length t
    cancel s t h =
        omega (arith, ap length h, length-append s (b'>' ∷ []), length-append t (b'>' ∷ []))

    decide : (zs : Text) → decimal m ≡ zs ++ decimal n → (zs ≡ []) × (n ≡ m) ⊎ IsCounter zs
    decide [] same = inl (refl, sym (decimal_injective m n same))
    decide (z ∷ zs) same =
        let leads : LeadsNonzero ((z ∷ zs) ++ decimal n) =
          subst LeadsNonzero same (decimal-LeadsNonzero m p) in
        inr (
          All-append_left IsDigit (z ∷ zs) (decimal n)
              (subst (All IsDigit) same (decimal-IsDigit m)),
          leads,
        )

collides_of_token :
    (long short : Text) (n m : ℕ)
    → length short ≤ length long
    → 0 < m
    → token_of long n ≡ token_of short m
    → (long ≡ short) × (n ≡ m) ⊎ (suffix_collides long short ≡ true)
collides_of_token long short n m h p e =
    let (zs, front, either) = suffix_of_token long short n m h p e in
    elim either [
      | inl (empty, same) ↦ inl (front ∙ rw (empty, append-nil), same)
      | inr counter ↦ inr (rw front (suffix_collides-append short zs counter))
    ]

suffix_collides_self : (p : Text) → suffix_collides p p ≡ false
unfolding suffix_collides
suffix_collides_self p =
    subst (λ q. suffix_collides q p ≡ false) (append-nil p)
      (rw (starts_with-append p [], drop-length-append p []))

pub digit_suffix_collides_self : (p : Text) → digit_suffix_collides p p ≡ false
unfolding digit_suffix_collides
digit_suffix_collides_self p = ground (arith, suffix_collides_self p)

-- Names that pass the check share no token: a token determines its name and its counter.
pub token_of_injective :
    (pa pb : Text) (n m : ℕ)
    → digit_suffix_collides pa pb ≡ false
    → 0 < n
    → 0 < m
    → token_of pa n ≡ token_of pb m
    → (pa ≡ pb) × (n ≡ m)
unfolding digit_suffix_collides
token_of_injective pa pb n m apart pn pm e = elim (Bool-cases (leb (length pb) (length pa))) [
  | inl longer ↦ elim (collides_of_token pa pb n m (ground arith) pm e) [
    | inl same ↦ same
    | inr hit ↦ ground (arith, hit, apart)
  ]
  | inr shorter ↦ elim (collides_of_token pb pa m n (ground arith) pn (sym e)) [
    | inl same ↦ (sym same.0, sym same.1)
    | inr hit ↦ ground (arith, hit, apart)
  ]
]

-- Two names share a token: some counters of theirs, which start at 1, are written alike.
abbrev pub Collide : Text → Text → Type 0
Collide pa pb = (n : ℕ) × (m : ℕ) × (0 < n) × (0 < m) × (token_of pa n ≡ token_of pb m)

-- Counter `v1` of the shorter name meets counter 1 of the longer, where `v` is the suffix.
Collide-of_suffix : (short zs : Text) → IsCounter zs → Collide (short ++ zs) short
unfolding decimal
Collide-of_suffix short zs (digits, leads) =
    let pos = value_pos zs digits leads in
    let written : decimal (value zs * 10 + 1) ≡ zs ++ b'1' ∷ [] =
      decimal-push (value zs) 1 pos (omega arith)
      ∙ ap (λ s. s ++ b'1' ∷ []) (decimal-value zs digits leads) in
    (
      1,
      value zs * 10 + 1,
      omega arith,
      omega arith,
      rw written (ap (λ s. b'<' ∷ s) (simp append_assoc)),
    )

Collide-of_found : (long short : Text) → suffix_collides long short ≡ true → Collide long short
Collide-of_found long short h =
    let (zs, counter, front) = IsCounter-of_suffix long short h in
    subst (λ s. Collide s short) (sym front) (Collide-of_suffix short zs counter)

Collide-sym : (pa pb : Text) → Collide pa pb → Collide pb pa
Collide-sym pa pb (n, m, pn, pm, e) = (m, n, pm, pn, sym e)

-- Two different token names are refused together exactly when they could mint one and the same
-- token for two different values.
pub digit_suffix_collides_iff :
    (pa pb : Text) → pa ≢ pb → (digit_suffix_collides pa pb ≡ true) ↔ Collide pa pb
unfolding digit_suffix_collides
digit_suffix_collides_iff pa pb ne = (found, refused)
  where
    found : digit_suffix_collides pa pb ≡ true → Collide pa pb
    found h = elim (Bool-cases (leb (length pb) (length pa))) [
      | inl longer ↦ Collide-of_found pa pb (ground arith)
      | inr shorter ↦ Collide-sym pb pa (Collide-of_found pb pa (ground arith))
    ]

    refused : Collide pa pb → digit_suffix_collides pa pb ≡ true
    refused (n, m, pn, pm, e) = elim (Bool-cases (digit_suffix_collides pa pb)) [
      | inl hit ↦ hit
      | inr apart ↦ absurd (ne (token_of_injective pa pb n m apart pn pm e).0)
    ]
