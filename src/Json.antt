-- ===== src/Json.antt =====
-- What the adapters use of `serde_json::Value`: `get`, `as_str`, `as_u64` and the `json!` macro.
use llmgate.Prelude.{
  ℕ, Bool, true, false, ◌&&◌, ◌||◌, ltb, ◌==◌, ◌%◌, ◌^◌, Option, none, some, List, [], ◌∷◌, Text,
  text_eq, if◌then◌else◌,
}
use llmgate.Neutral.{Number, Value, Items, Fields}

unfoldable pub find_field : Text → Fields → Option Value
find_field key Fields.end = none
find_field key (Fields.field k v rest) =
    let more = find_field key rest in if text_eq k key then some v else more

-- `Value::get` with a key.
unfoldable pub get : Text → Value → Option Value
unfolding find_field
get key (Value.object fields) = find_field key fields
get key _ = none

unfoldable pub as_str : Value → Option Text
as_str (Value.string s) = some s
as_str _ = none

unfoldable pub as_u64 : Value → Option ℕ
as_u64 (Value.number (Number.unsigned n)) = some n
as_u64 _ = none

unfoldable pub as_bool : Value → Option Bool
as_bool (Value.bool b) = some b
as_bool _ = none

-- `Value::as_array`, as a list.
abbrev pub elements : Items → List Value
elements Items.nil = []
elements (Items.cons v rest) = v ∷ elements rest

unfoldable pub as_array : Value → Option (List Value)
as_array (Value.array items) = some (elements items)
as_array _ = none

-- `first()`
abbrev pub first {ℓ} : {A : Type ℓ} → List A → Option A
first [] = none
first (x ∷ xs) = some x

-- `o.or_else(|| p)`
abbrev pub or_else {ℓ} : {A : Type ℓ} → Option A → Option A → Option A
or_else none p = p
or_else (some a) p = some a

-- `o.and_then(f)`
abbrev pub and_then {ℓ κ} : {A : Type ℓ} {B : Type κ} → Option A → (A → Option B) → Option B
and_then none f = none
and_then (some a) f = f a

-- `o.unwrap_or(d)`
abbrev pub unwrap_or {ℓ} : {A : Type ℓ} → A → Option A → A
unwrap_or d none = d
unwrap_or d (some a) = a

-- `v.get(key).and_then(Value::as_str)`
unfoldable pub str_at : Text → Value → Option Text
unfolding get as_str
str_at key v = and_then (get key v) as_str

-- `v.get(key).and_then(Value::as_u64)`
unfoldable pub u64_at : Text → Value → Option ℕ
unfolding get as_u64
u64_at key v = and_then (get key v) as_u64

-- `n as u32`
abbrev pub as_u32 : ℕ → ℕ
as_u32 n = n % 2 ^ 32

-- The order of keys: byte by byte.
abbrev pub before : Text → Text → Bool
before s [] = false
before [] (c ∷ t) = true
before (b ∷ s) (c ∷ t) = ltb b c || (b == c && before s t)

-- `Map::insert`: an object is kept sorted by its keys, and a key that is there gets the new value.
abbrev pub insert_field : Text → Value → Fields → Fields
insert_field key v Fields.end = Fields.field key v Fields.end
insert_field key v (Fields.field k w rest) =
    let later = Fields.field k w (insert_field key v rest) in
    if text_eq k key
    then Fields.field key v rest
    else if before key k
    then Fields.field key v (Fields.field k w rest)
    else later

abbrev pub insert_all : List (Text × Value) → Fields → Fields
insert_all [] fields = fields
insert_all ((k, v) ∷ rest) fields = insert_all rest (insert_field k v fields)

-- A `json!` object.
abbrev pub json : List (Text × Value) → Value
json entries = Value.object (insert_all entries Fields.end)

-- An array, as `json!` writes it.
abbrev pub items : List Value → Items
items [] = Items.nil
items (v ∷ vs) = Items.cons v (items vs)

abbrev pub array : List Value → Value
array vs = Value.array (items vs)

abbrev pub number : ℕ → Value
number n = Value.number (Number.unsigned n)
