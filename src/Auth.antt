-- ===== src/Auth.antt =====
-- src/auth.rs: the authentication of clients. The crate `http`'s `HeaderMap` is an interface.
pub mod Bits
pub mod Equal
pub mod Guard
mod Tests
use Prim.Native.Nat.{max, bit_or, bit_xor}
use llmgate.Prelude.{
  ℕ, zero, suc, ◌+◌, ◌-◌, ◌≡◌, ◌≢◌, Bool, true, false, not, ◌||◌, ◌&&◌, Option, none, some, List,
  [], ◌∷◌, ◌++◌, map, Text, text, text_eq, is_empty, length, drop, leb, ltb, ◌==◌, if◌then◌else◌,
}
use llmgate.Prelude.Trim.{trim, is_space}

-- `s.as_bytes().get(i).copied().unwrap_or(0)`
abbrev pub byte_or_zero : Text → ℕ → ℕ
byte_or_zero s i = elim (drop i s) [ [] ↦ 0 | b ∷ rest ↦ b ]

-- The loop of `ct_eq`: `rounds` bytes from `i`.
unfoldable pub diff_from : Text → Text → (rounds i diff : ℕ) → ℕ
diff_from a b zero i diff = diff
diff_from a b (suc rounds) i diff =
    diff_from a b rounds (i + 1) (bit_or diff (bit_xor (byte_or_zero a i) (byte_or_zero b i)))

unfoldable pub ct_eq : Text → Text → Bool
unfolding diff_from
ct_eq a b = diff_from a b (max (length a) (length b)) 0 (bit_xor (length a) (length b)) == 0

-- `HeaderMap`: the value of a header, if there is one and `to_str` succeeds, so that it is ASCII;
-- and the removal of a header.
pub record HeaderMap (H : Type 0) : Type 0 where
  pub get : Text → H → Option Text
  pub remove : Text → H → H

-- Documented: a header that is removed is gone, and the others are left.
pub record IsMap {H : Type 0} (m : HeaderMap H) : Type 0 where
  pub get-remove : (name : Text) (h : H) → m.get name (m.remove name h) ≡ none
  pub get-remove_other :
      (name other : Text) (h : H)
      → text_eq name other ≡ false
      → m.get name (m.remove other h) ≡ m.get name h

-- `split_once(char::is_whitespace)`, on ASCII.
unfoldable pub split_once : Text → Option (Text × Text)
split_once [] = none
split_once (b ∷ s) = elim (split_once s) [
  | none ↦ if is_space b then some ([], s) else none
  | some (front, rest) ↦ if is_space b then some ([], s) else some (b ∷ front, rest)
]

abbrev to_ascii_lowercase : ℕ → ℕ
to_ascii_lowercase b = if leb 65 b && leb b 90 then b + 32 else b

-- `eq_ignore_ascii_case`
abbrev pub eq_ignore_ascii_case : Text → Text → Bool
eq_ignore_ascii_case s t = text_eq (map to_ascii_lowercase s) (map to_ascii_lowercase t)

abbrev pub unless_empty : Text → Option Text
unless_empty t = if is_empty t then none else some t

-- The credentials in the value of `Authorization`, trimmed.
unfoldable pub bearer : Text → Option Text
unfolding split_once trim
bearer value = elim (split_once value) [
  | none ↦ none
  | some (scheme, creds) ↦
      if eq_ignore_ascii_case scheme (text "Bearer") then unless_empty (trim creds) else none
]

-- What one header of the loop gives.
abbrev pub presented_by : (Text → Option Text) → Option Text → Option Text
presented_by read none = none
presented_by read (some value) = read (trim value)

-- The header to look at next, if this one gives nothing.
abbrev pub or_next : Option Text → Option Text → Option Text
or_next none next = next
or_next (some key) next = some key

-- `next.run(request)`, or the answer 401.
pub data Verdict (H : Type 0) : Type 0 where
  run : H → Verdict H
  unauthorized : Verdict H

-- `map(len).max().unwrap_or(0)`
abbrev pub max_key_len : List Text → ℕ
max_key_len [] = 0
max_key_len (k ∷ keys) = max (length k) (max_key_len keys)

-- The loop over the keys.
unfoldable pub any_key : Text → Bool → List Text → Bool
unfolding ct_eq
any_key presented key_ok [] = key_ok
any_key presented key_ok (k ∷ keys) = any_key presented (key_ok || ct_eq k presented) keys

abbrev pub no_keys : List Text → Bool
no_keys [] = true
no_keys (k ∷ keys) = false

module _ {H : Type 0} (m : HeaderMap H) where
  unfoldable pub extract_key : H → Option Text
  unfolding bearer trim
  extract_key h = or_next (presented_by bearer (m.get (text "authorization") h)) (
      or_next (presented_by unless_empty (m.get (text "api-key") h))
        (presented_by unless_empty (m.get (text "x-api-key") h)))

  unfoldable pub strip_credential_headers : H → H
  strip_credential_headers h =
      m.remove (text "x-api-key") (m.remove (text "api-key") (m.remove (text "authorization") h))

  -- The checks of a key that is presented.
  unfoldable pub check_key : List Text → H → Text → Verdict H
  unfolding any_key strip_credential_headers
  check_key keys h presented =
      if ltb (max_key_len keys) (length presented)
      then Verdict.unauthorized
      else if any_key presented false keys
      then Verdict.run (strip_credential_headers h)
      else Verdict.unauthorized

  unfoldable pub require_auth : List Text → H → Verdict H
  unfolding extract_key check_key
  require_auth keys h = if no_keys keys then Verdict.run h else elim (extract_key h) [
    | none ↦ Verdict.unauthorized
    | some presented ↦ check_key keys h presented
  ]
