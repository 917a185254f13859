-- ===== src/Logging/Sanitize.antt =====
-- `sanitizeForLog` of src/common/logging/logging.utils.ts. A text's length is counted in characters,
-- where the code counts UTF-16 units.
use Prim.Native.Char.{code}
use Prim.Native.String.{◌++◌}
use market_place.Base.{ℕ, zero, suc, ◌-◌, String, Bool, ◌||◌, str_eq, if◌then◌else◌, ltb, leb, ◌==◌}
use market_place.Base.Decimal.{digits}
use market_place.Base.Json.{
  Json, null, boolean, number, other_number, text, array, object, Items, nil, cons, Fields, end,
  field, count_items,
}
use market_place.Base.Text.{to_lower, text_length, text_take}

-- replace(/[_-]/g, '')
unfoldable pub drop_separators : String → String
drop_separators String.[] = ""
drop_separators (String.◌∷◌ c s) =
    let rest = drop_separators s in
    if code c == b'_' || code c == b'-' then rest else String.◌∷◌ c rest

-- SENSITIVE_KEYS
abbrev pub is_sensitive_name : String → Bool
is_sensitive_name name =
    str_eq name "password"
    || str_eq name "token"
    || str_eq name "authorization"
    || str_eq name "secret"
    || str_eq name "otp"
    || str_eq name "refreshtoken"
    || str_eq name "accesstoken"

-- SENSITIVE_KEYS.has(normalizedKey)
unfoldable pub is_sensitive : String → Bool
is_sensitive key = is_sensitive_name (drop_separators (to_lower key))

-- MAX_STRING_LENGTH
abbrev max_string_length : ℕ
max_string_length = 300

-- MAX_ARRAY_LENGTH
abbrev pub max_array_length : ℕ
max_array_length = 20

-- MAX_OBJECT_KEYS
abbrev pub max_object_keys : ℕ
max_object_keys = 30

-- MAX_DEPTH
abbrev pub max_depth : ℕ
max_depth = 4

unfoldable pub limited_text : String → String
limited_text s =
    if ltb max_string_length (text_length s)
    then text_take max_string_length s
      ++ ("...[truncated:" ++ (digits (text_length s - max_string_length) ++ "]"))
    else s

-- Array.prototype.push
unfoldable pub push_item : Items → Json → Items
push_item nil v = cons v nil
push_item (cons u vs) v = cons u (push_item vs v)

-- what is said of the items of an array of `n` that are left out
abbrev pub with_notice : ℕ → Items → Items
with_notice n limited =
    if ltb max_array_length n
    then push_item limited (text ("[truncated:" ++ (digits (n - max_array_length) ++ "]")))
    else limited

-- the number with the items and fields is how many are still taken
unfoldable mutual
  pub sanitize : ℕ → Json → Json
  sanitize depth (text s) = text (limited_text s)
  sanitize depth (array vs) =
      let limited = sanitize_items (suc depth) max_array_length vs in
      if leb max_depth depth
      then text "[depth-limited]"
      else array (with_notice (count_items vs) limited)
  sanitize depth (object fs) =
      let out = sanitize_fields (suc depth) max_object_keys fs in
      if leb max_depth depth then text "[depth-limited]" else object out
  sanitize depth null = null
  sanitize depth (boolean b) = boolean b
  sanitize depth (number n) = number n
  sanitize depth (other_number s) = other_number s

  pub sanitize_items : ℕ → ℕ → Items → Items
  sanitize_items depth zero vs = nil
  sanitize_items depth (suc n) nil = nil
  sanitize_items depth (suc n) (cons v vs) = cons (sanitize depth v) (sanitize_items depth n vs)

  pub sanitize_fields : ℕ → ℕ → Fields → Fields
  sanitize_fields depth zero fs = end
  sanitize_fields depth (suc n) end = end
  sanitize_fields depth (suc n) (field k v fs) =
      let shown = sanitize depth v in
      field k (if is_sensitive k then text "[REDACTED]" else shown) (sanitize_fields depth n fs)

-- `sanitizeForLog(value)`
unfoldable pub sanitize_for_log : Json → Json
sanitize_for_log v = sanitize 0 v
