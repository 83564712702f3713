-- ===== src/Privacy/Template/Grammar.antt =====
-- The templates that are accepted, and the tokens that they make.
use llmgate.Prelude.{
  ℕ, ◌+◌, ◌-◌, ◌≡◌, refl, sym, ap, ◌∙◌, ◌↔◌, ◌≢◌, inl, inr, true, false, not, ◌||◌, none, some, [],
  ◌∷◌, ◌++◌, append_assoc, Text, text, is_empty, length, take, all, arith, Option-cases, All,
  All_mono, All-append, length-append, take-length-append,
}
use llmgate.Prelude.Strings.{
  strip_prefix, strip_suffix, ends_with, count, append_of_strip_prefix, append_of_strip_suffix,
  strip_suffix-append, ends_with-append, append_of_ends_with, count-append, count_of_absent,
  replace_once,
}
use llmgate.Prelude.Decimal.{decimal, IsDigit, decimal-IsDigit}
use llmgate.Privacy.Template.{
  slot, is_word, validate_name, validate_inner, validate_template, template_prefix, render,
}

abbrev pub IsWord : ℕ → Type 0
IsWord c = is_word c ≡ true

-- A token name: one or more of the bytes [A-Za-z0-9_].
abbrev pub IsName : Text → Type 0
IsName name = (name ≢ []) × All IsWord name

-- A token: `<`, word bytes, `>`. Neither bracket stands anywhere else in it.
pub record IsToken (t : Text) : Type 0 where
  pub body : Text
  pub shape : t ≡ b'<' ∷ (body ++ b'>' ∷ [])
  pub words : All IsWord body

abbrev pub template_of : Text → Text
template_of name = b'<' ∷ (name ++ text "{n}>")

abbrev pub token_of : Text → ℕ → Text
token_of name n = b'<' ∷ (name ++ (decimal n ++ b'>' ∷ []))

ne_nil_of_is_empty : (s : Text) → is_empty s ≡ false → s ≢ []
ne_nil_of_is_empty [] h e = cc
ne_nil_of_is_empty (c ∷ s) h e = cc

All_of_all : (s : Text) → all is_word s ≡ true → All IsWord s
All_of_all [] h = tt
All_of_all (c ∷ s) h = (ground arith, All_of_all s (ground arith))

all_of_All : (s : Text) → All IsWord s → all is_word s ≡ true
all_of_All [] h = refl
all_of_All (c ∷ s) (p, h) = rw p (all_of_All s h)

pub Lacks_of_words : (b : ℕ) → is_word b ≡ false → (s : Text) → All IsWord s → All (λ c. c ≢ b) s
Lacks_of_words b h s words = All_mono IsWord (λ c. c ≢ b) (λ c p e. cc) s words

-- The inner part of an accepted template ends in the slot.
validate_inner_sound :
    (rest : Text) → validate_inner rest ≡ none → (name : Text) × IsName name × (rest ≡ name ++ slot)
unfolding validate_inner
validate_inner_sound rest h =
    let fits : ends_with slot rest ≡ true = ground arith in
    let name : Text = take (length rest - 3) rest in
    let named : (is_empty name || not (all is_word name)) ≡ false = ground arith in
    (
      name,
      (ne_nil_of_is_empty name (ground arith), All_of_all name (ground arith)),
      append_of_ends_with slot rest fits,
    )

validate_name_complete : (name : Text) → IsName name → validate_name name ≡ none
unfolding validate_name
validate_name_complete [] (nonempty, words) = absurd (nonempty refl)
validate_name_complete (c ∷ s) (nonempty, words) = rw (all_of_All (c ∷ s) words)

validate_inner_complete : (name : Text) → IsName name → validate_inner (name ++ slot) ≡ none
unfolding validate_inner count
validate_inner_complete name (nonempty, words) =
    let opens : count b'{' (name ++ slot) ≡ 1 =
      count-append b'{' name slot
      ∙ ap (λ k. k + 1) (count_of_absent b'{' name (Lacks_of_words b'{' refl name words)) in
    let closes : count b'}' (name ++ slot) ≡ 1 =
      count-append b'}' name slot
      ∙ ap (λ k. k + 1) (count_of_absent b'}' name (Lacks_of_words b'}' refl name words)) in
    let front : length (name ++ slot) - 3 ≡ length name = omega (arith, length-append name slot) in
    rw (opens, closes, ends_with-append name slot, front, take-length-append name slot)
      (validate_name_complete name (nonempty, words))

-- A replacement is accepted exactly when it is `<NAME_{n}>` with a name of one or more word bytes.
pub validate_template_iff :
    (t : Text)
    → (validate_template t ≡ none) ↔ ((name : Text) × IsName name × (t ≡ template_of name))
unfolding validate_template strip_prefix
validate_template_iff t = (sound t, complete t)
  where
    inner :
        (t opened rest : Text)
        → strip_prefix (text "<") t ≡ some opened
        → strip_suffix (text ">") opened ≡ some rest
        → validate_inner rest ≡ none
        → (name : Text) × IsName name × (t ≡ template_of name)
    inner t opened rest e f h =
        let (name, named, shape) = validate_inner_sound rest h in
        (
          name,
          named,
          append_of_strip_prefix (text "<") t opened e
              ∙ ap (λ u. b'<' ∷ u)
                  (append_of_strip_suffix (text ">") opened rest f
                    ∙ ap (λ u. u ++ text ">") shape
                    ∙ append_assoc name slot (text ">")),
        )

    sound :
        (t : Text)
        → validate_template t ≡ none
        → (name : Text) × IsName name × (t ≡ template_of name)
    sound t h = elim (Option-cases (strip_prefix (text "<") t)) [
      | inl missed ↦ cc (rw (missed, validate_template) at h)
      | inr (opened, e) ↦ elim (Option-cases (strip_suffix (text ">") opened)) [
        | inl missed ↦ cc (rw (e, missed, validate_template) at h)
        | inr (rest, f) ↦ inner t opened rest e f (rw (e, f, validate_template) at h)
      ]
    ]

    complete :
        (t : Text)
        → (name : Text) × IsName name × (t ≡ template_of name)
        → validate_template t ≡ none
    complete t (name, named, e) =
        rw (e, ← append_assoc name slot (text ">"), strip_suffix-append (name ++ slot) (text ">"))
          (validate_inner_complete name named)

pub template_prefix_lem : (name : Text) → template_prefix (template_of name) ≡ name
unfolding template_prefix
template_prefix_lem name =
    let front : length (template_of name) - 4 - 1 ≡ length name =
      omega (arith, length-append name (text "{n}>")) in
    rw front (take-length-append name (text "{n}>"))

pub render_lem : (name : Text) (n : ℕ) → IsName name → render (template_of name) n ≡ token_of name n
unfolding render
render_lem name n (nonempty, words) =
    replace_once b'{' (text "n}") (decimal n) (b'<' ∷ name) (text ">")
      ((λ e. omega arith), Lacks_of_words b'{' refl name words) ((λ e. omega arith), tt)

words_of_digits : (s : Text) → All IsDigit s → All IsWord s
words_of_digits s h = All_mono IsDigit IsWord (λ c d. ground arith) s h

pub token_of-IsToken : (name : Text) (n : ℕ) → IsName name → IsToken (token_of name n)
token_of-IsToken name n (nonempty, words) = record {
  body = name ++ decimal n;
  shape = ap (λ s. b'<' ∷ s) (sym (append_assoc name (decimal n) (b'>' ∷ [])));
  words =
      All-append IsWord name (decimal n) words (words_of_digits (decimal n) (decimal-IsDigit n));
}
