-- ===== src/Examples/Tokens.antt =====
-- A concrete environment: tokens that spell their claims out, and hashes that are the text itself.
use Prim.Native.Char.{Char, code}
use market_place.Base.{
  ℕ, zero, suc, ◌+◌, ◌≡◌, refl, ap, ◌∙◌, String, Bool, true, false, Option, none, some, ◌==◌,
  if◌then◌else◌, arith, str_eq, str_eq_self,
}
use market_place.Base.Decimal.{digits}
use market_place.Auth.Env.{Env, Claims, CryptoLaws, console}

unfoldable pub encode_number : ℕ → String → String
encode_number zero rest = String.◌∷◌ "." rest
encode_number (suc n) rest = String.◌∷◌ "1" (encode_number n rest)

unfoldable pub decode_number : ℕ → String → Option (ℕ × String)
decode_number acc String.[] = none
decode_number acc (String.◌∷◌ c s) =
    let rest = decode_number (suc acc) s in if code c == b'.' then some (acc, s) else rest

plus_suc : (a n : ℕ) → suc a + n ≡ a + suc n
plus_suc a n = omega arith

plus_zero : (a : ℕ) → a ≡ a + 0
plus_zero a = omega arith

decode-encode_number :
    (acc n : ℕ) (rest : String) → decode_number acc (encode_number n rest) ≡ some (acc + n, rest)
unfolding decode_number encode_number
decode-encode_number acc zero rest = ap (λ k. some (k, rest)) (plus_zero acc)
decode-encode_number acc (suc n) rest =
    decode-encode_number (suc acc) n rest ∙ ap (λ k. some (k, rest)) (plus_suc acc n)

unfoldable pub encode_text : String → String → String
encode_text String.[] rest = String.◌∷◌ "." rest
encode_text (String.◌∷◌ c s) rest = String.◌∷◌ "1" (String.◌∷◌ c (encode_text s rest))

abbrev prepend : Char → Option (String × String) → Option (String × String)
prepend c none = none
prepend c (some (s, rest)) = some (String.◌∷◌ c s, rest)

unfoldable pub decode_text : String → Option (String × String)
decode_text String.[] = none
decode_text (String.◌∷◌ m String.[]) = if code m == b'.' then some ("", "") else none
decode_text (String.◌∷◌ m (String.◌∷◌ c s)) =
    let rest = decode_text s in if code m == b'.' then some ("", String.◌∷◌ c s) else prepend c rest

decode-encode_text : (s rest : String) → decode_text (encode_text s rest) ≡ some (s, rest)
unfolding decode_text encode_text
decode-encode_text String.[] String.[] = refl
decode-encode_text String.[] (String.◌∷◌ c rest) = refl
decode-encode_text (String.◌∷◌ c s) rest = rw (decode-encode_text s rest) refl

abbrev encode_flag : Bool → ℕ
encode_flag true = 1
encode_flag false = 0

abbrev encode_jti : Option String → String
encode_jti none = encode_number 0 ""
encode_jti (some jti) = encode_number 1 (encode_text jti "")

unfoldable pub encode : Claims → String
encode c = encode_number c.sub (
    encode_number c.token_version
      (encode_number (encode_flag c.is_admin) (encode_text c.phone (encode_jti c.jti))))

abbrev fst_text : Option (String × String) → Option String
fst_text none = none
fst_text (some (s, rest)) = some s

abbrev decode_jti : Option (ℕ × String) → Option String
decode_jti none = none
decode_jti (some (n, s)) = if n == 0 then none else fst_text (decode_text s)

abbrev claims : ℕ → ℕ → ℕ → Option (String × String) → Option Claims
claims sub version flag none = none
claims sub version flag (some (phone, s)) = some (record {
  sub = sub;
  phone = phone;
  is_admin = flag == 1;
  token_version = version;
  jti = decode_jti (decode_number 0 s);
})

abbrev flag_of : ℕ → ℕ → Option (ℕ × String) → Option Claims
flag_of sub version none = none
flag_of sub version (some (flag, s)) = claims sub version flag (decode_text s)

abbrev version_of : ℕ → Option (ℕ × String) → Option Claims
version_of sub none = none
version_of sub (some (version, s)) = flag_of sub version (decode_number 0 s)

abbrev sub_of : Option (ℕ × String) → Option Claims
sub_of none = none
sub_of (some (sub, s)) = version_of sub (decode_number 0 s)

unfoldable pub decode : String → Option Claims
decode s = sub_of (decode_number 0 s)

decode-encode_jti : (jti : Option String) → decode_jti (decode_number 0 (encode_jti jti)) ≡ jti
decode-encode_jti none = rw (decode-encode_number 0 0 "") refl
decode-encode_jti (some jti) =
    rw (decode-encode_number 0 1 (encode_text jti ""), decode-encode_text jti "") refl

decode-encode_flag : (b : Bool) → (encode_flag b == 1) ≡ b
decode-encode_flag true = refl
decode-encode_flag false = refl

zero_plus : (n : ℕ) → 0 + n ≡ n
zero_plus n = omega arith

pub decode-encode : (c : Claims) → decode (encode c) ≡ some c
unfolding decode encode
decode-encode c =
    let end = encode_text c.phone (encode_jti c.jti) in
    let third = encode_number (encode_flag c.is_admin) end in
    let second = encode_number c.token_version third in
    rw
      (
        decode-encode_number 0 c.sub second,
        decode-encode_number 0 c.token_version third,
        decode-encode_number 0 (encode_flag c.is_admin) end,
        decode-encode_text c.phone (encode_jti c.jti),
        decode-encode_jti c.jti,
        zero_plus c.sub,
        zero_plus c.token_version,
        zero_plus (encode_flag c.is_admin),
        decode-encode_flag c.is_admin,
      )
      refl

-- six-digit codes and token ids are the numbers of the draws
abbrev pub test_env : Env
test_env = record {
  otp_provider = console;
  otp_dev_mode = true;
  otp_ttl_minutes = 5;
  otp_signing_secret = "otp-secret";
  jwt_access_secret = "access-secret";
  jwt_refresh_secret = "refresh-secret";
  jwt_access_ttl = "15m";
  jwt_refresh_ttl = "30d";
  bcrypt_hash = λ password salt. password;
  bcrypt_compare = str_eq;
  hmac = λ secret text. text;
  random_hex = digits;
  random_int = λ low high draw. digits (low + draw);
  jwt_sign = λ secret ttl t c. encode c;
  jwt_verify = λ secret t token. decode token;
}

same_claims : (x : Option Claims) (c d : Claims) → x ≡ some c → x ≡ some d → c ≡ d
same_claims x c d h k = cc

pub test_env-CryptoLaws : CryptoLaws test_env
test_env-CryptoLaws = record {
  compare-hash = λ p salt. str_eq_self p;
  verify-sign = λ secret ttl t c. decode-encode c;
  verify_stable = λ secret token t u c d h k. same_claims (decode token) c d h k;
}
