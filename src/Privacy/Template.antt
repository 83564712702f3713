-- ===== src/Privacy/Template.antt =====
-- src/core/privacy.rs: the token grammar. A template is `<NAME_{n}>`, a token is what it becomes
-- when a counter is put in.
pub mod Grammar
pub mod Namespace
use llmgate.Prelude.{
  ℕ, ◌-◌, Bool, false, true, not, ◌&&◌, ◌||◌, Option, none, some, Text, text, is_empty, length,
  take, drop, all, leb, ◌==◌, if◌then◌else◌,
}
use llmgate.Prelude.Strings.{starts_with, strip_prefix, strip_suffix, ends_with, count, replace}
use llmgate.Prelude.Decimal.{is_ascii_digit, decimal}

-- The four ways in which `validate_template` refuses a replacement.
pub data TemplateError : Type 0 where
  bad_start bad_end bad_slot bad_name : TemplateError

abbrev pub slot : Text
slot = text "{n}"

-- `c.is_ascii_alphanumeric() || c == '_'`
abbrev pub is_word : ℕ → Bool
is_word c =
    is_ascii_digit c || (leb b'A' c && leb c b'Z') || (leb b'a' c && leb c b'z') || (c == b'_')

validate_name : Text → Option TemplateError
validate_name name = if is_empty name || not (all is_word name) then some bad_name else none

-- What stands between `<` and `>`.
validate_inner : Text → Option TemplateError
unfolding validate_name
validate_inner rest =
    if not (count b'{' rest == 1) || not (count b'}' rest == 1) || not (ends_with slot rest)
    then some bad_slot
    else validate_name (take (length rest - 3) rest)

-- The `Result<(), _>` of the source: `none` is `Ok(())`.
unfoldable pub validate_template : Text → Option TemplateError
unfolding validate_inner
validate_template t = elim (strip_prefix (text "<") t) [
  | none ↦ some bad_start
  | some opened ↦ elim (strip_suffix (text ">") opened) [
    | none ↦ some bad_end
    | some rest ↦ validate_inner rest
  ]
]

-- `&template[1..template.len() - 4]`
unfoldable pub template_prefix : Text → Text
template_prefix t = take (length t - 4 - 1) (drop 1 t)

-- The rest of `digit_suffix_collides`, once `(long, short)` is bound.
suffix_collides : Text → Text → Bool
suffix_collides long short =
    if not (starts_with short long)
    then false
    else let suffix = drop (length short) long in
      not (is_empty suffix) && all is_ascii_digit suffix && not (starts_with (text "0") suffix)

unfoldable pub digit_suffix_collides : Text → Text → Bool
unfolding suffix_collides
digit_suffix_collides pa pb =
    if leb (length pb) (length pa) then suffix_collides pa pb else suffix_collides pb pa

-- `rule.template.replace("{n}", &n.to_string())`
unfoldable pub render : Text → ℕ → Text
unfolding replace
render template n = replace slot (decimal n) template
