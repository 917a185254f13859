-- ===== src/Base/Text.antt =====
-- Methods of String.prototype on texts as lists of characters. Lower case is that of ASCII: no text
-- that the code compares with has another letter.
use Prim.Native.Nat.{ℕ, zero, suc}
use Prim.Native.Char.{Char, code}
use Prim.Native.String.{String, ◌++◌}
use mathlib.Core.Bool.{Bool, true, false, ◌&&◌, ◌||◌}
use mathlib.Core.List.{List, [], ◌∷◌}
use mathlib.Core.Option.{Option, none, some}
use market_place.Base.Tests.{if◌then◌else◌, leb, ◌==◌, str_eq}

-- white space of ECMAScript
abbrev pub is_space : Char → Bool
is_space c =
    (leb 9 (code c) && leb (code c) 13)
    || code c == 32
    || code c == 160
    || code c == 5760
    || (leb 8192 (code c) && leb (code c) 8202)
    || code c == 8232
    || code c == 8233
    || code c == 8239
    || code c == 8287
    || code c == 12288
    || code c == 65279

unfoldable pub trim_start : String → String
trim_start String.[] = ""
trim_start (String.◌∷◌ c s) = let rest = trim_start s in if is_space c then rest else String.◌∷◌ c s

abbrev pub is_empty : String → Bool
is_empty String.[] = true
is_empty (String.◌∷◌ c s) = false

unfoldable pub trim_end : String → String
trim_end String.[] = ""
trim_end (String.◌∷◌ c s) =
    let rest = trim_end s in if is_space c && is_empty rest then "" else String.◌∷◌ c rest

-- String.prototype.trim
unfoldable pub trim : String → String
trim s = trim_end (trim_start s)

-- a text that is there and not empty
abbrev pub truthy_text : Option String → Option String
truthy_text none = none
truthy_text (some s) = if is_empty s then none else some s

abbrev pub lower_char : Char → Char
lower_char c =
    if code c == 65
    then "a"
    else if code c == 66
    then "b"
    else if code c == 67
    then "c"
    else if code c == 68
    then "d"
    else if code c == 69
    then "e"
    else if code c == 70
    then "f"
    else if code c == 71
    then "g"
    else if code c == 72
    then "h"
    else if code c == 73
    then "i"
    else if code c == 74
    then "j"
    else if code c == 75
    then "k"
    else if code c == 76
    then "l"
    else if code c == 77
    then "m"
    else if code c == 78
    then "n"
    else if code c == 79
    then "o"
    else if code c == 80
    then "p"
    else if code c == 81
    then "q"
    else if code c == 82
    then "r"
    else if code c == 83
    then "s"
    else if code c == 84
    then "t"
    else if code c == 85
    then "u"
    else if code c == 86
    then "v"
    else if code c == 87
    then "w"
    else if code c == 88
    then "x"
    else if code c == 89
    then "y"
    else if code c == 90
    then "z"
    else c

-- toLowerCase
unfoldable pub to_lower : String → String
to_lower String.[] = ""
to_lower (String.◌∷◌ c s) = String.◌∷◌ (lower_char c) (to_lower s)

-- startsWith
unfoldable pub starts_with : String → String → Bool
starts_with String.[] s = true
starts_with (String.◌∷◌ p ps) String.[] = false
starts_with (String.◌∷◌ p ps) (String.◌∷◌ c s) = code p == code c && starts_with ps s

-- endsWith
unfoldable pub ends_with : String → String → Bool
ends_with suffix String.[] = is_empty suffix
ends_with suffix (String.◌∷◌ c s) = str_eq (String.◌∷◌ c s) suffix || ends_with suffix s

-- what stands before the first such character, `split(c)[0]`
unfoldable pub before_char : ℕ → String → String
before_char k String.[] = ""
before_char k (String.◌∷◌ c s) =
    let rest = before_char k s in if code c == k then "" else String.◌∷◌ c rest

-- what stands behind the first such character
unfoldable pub after_char : ℕ → String → Option String
after_char k String.[] = none
after_char k (String.◌∷◌ c s) = let rest = after_char k s in if code c == k then some s else rest

-- the length, and `slice(0, n)`
unfoldable pub text_length : String → ℕ
text_length String.[] = 0
text_length (String.◌∷◌ c s) = suc (text_length s)

unfoldable pub text_take : ℕ → String → String
text_take zero s = ""
text_take (suc n) String.[] = ""
text_take (suc n) (String.◌∷◌ c s) = String.◌∷◌ c (text_take n s)

-- Array.prototype.join(', ')
unfoldable pub join_comma : List String → String
join_comma [] = ""
join_comma (s ∷ []) = s
join_comma (s ∷ t ∷ rest) = s ++ (", " ++ join_comma (t ∷ rest))
