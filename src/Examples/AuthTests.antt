-- ===== src/Examples/AuthTests.antt =====
-- The properties of the authentication at the sample tables.
use market_place.Base.{◌≡◌, ◌≢◌, refl, arith, String, false, none, some, str_eq, str_eq_iff}
use market_place.Base.Decimal.{digits, digits_from, parse_digits, parse_int}
use market_place.Store.{ok, err, http, unauthorized, redis_set, redis_get, redis_del}
use market_place.Auth.Session.{refresh, logout, login, renew_session}
use market_place.Auth.Session.Rotation.{Presented, refresh_once, logout-refresh}
use market_place.Base.{◌↔◌, find?, any, update_where, delete_where}
use market_place.Auth.Console
use market_place.Auth.StateStore.{
  increment_otp_attempts, returned_attempts, saved_transaction, get_otp_transaction_req_id,
  try_redis_set, bump_cached_attempts, bumped, upsert_attempts, clear_otp_attempts,
  clear_otp_transaction_req_id, save_refresh_token_jti, upsert_refresh_token, otp_attempts_key,
  otp_transaction_key, refresh_jti_key, consume_refresh_token_jti,
}
use market_place.Auth.Session.{account_of}
use market_place.Auth.Session.Access.{MayRenew, refresh-MayRenew, Succeeds, GoodLogin, login_iff}
use market_place.Auth.Password.{
  complete_reset, ResetPasswordDto, reset_password, request_password_reset_otp,
}
use market_place.Auth.Password.Reset.{
  reset_password-login, request_password_reset_otp-reveals, message_of,
}
use market_place.Auth.Registration.{use_otp}
use market_place.Auth.Tokens.{generate_tokens, match_ttl, parse_ttl_seconds, unit_seconds}
use market_place.Base.{true, false}
use market_place.Store.{bad_request}
use market_place.Users.{change_password}
use market_place.Users.Change.{change_password-login}
use market_place.Examples.Tokens.{
  test_env, test_env-CryptoLaws, encode, decode, encode_number, decode_number, encode_text,
  decode_text, decode-encode,
}
use market_place.Examples.Fixture.{shop, ann, ann_claims}

ann_presents : Presented test_env (encode ann_claims) 100 "ann-token"
ann_presents = record { payload = ann_claims; verified = decode-encode ann_claims; has_jti = refl }

apart : (s t : String) → str_eq s t ≡ false → s ≢ t
apart s t h e = ground (arith, h, (str_eq_iff s t).1 e)

fresh_jti : test_env.random_hex 4 ≢ "ann-token"
unfolding digits digits_from
fresh_jti = apart (digits 4) "ann-token" refl

refresh_once_example :
    (refresh test_env
      (encode ann_claims)
      (record (refresh test_env (encode ann_claims) shop).1 { now = 200 })).0
    ≡ err (http unauthorized "Invalid refresh token")
refresh_once_example =
    refresh_once test_env (encode ann_claims) "ann-token" shop 200 test_env-CryptoLaws ann_presents
      fresh_jti (omega arith)

logout-refresh_example :
    (refresh test_env
      (encode ann_claims)
      (record (logout test_env (encode ann_claims) shop).1 { now = 200 })).0
    ≡ err (http unauthorized "Invalid refresh token")
logout-refresh_example =
    logout-refresh test_env (encode ann_claims) "ann-token" shop 200 test_env-CryptoLaws
      ann_presents (omega arith)

refresh-MayRenew_example : MayRenew test_env (encode ann_claims) shop
unfolding refresh renew_session consume_refresh_token_jti encode decode encode_number decode_number
    encode_text decode_text redis_get redis_set redis_del try_redis_set find? any update_where
    delete_where generate_tokens save_refresh_token_jti upsert_refresh_token match_ttl
    parse_ttl_seconds unit_seconds parse_digits parse_int digits digits_from refresh_jti_key
refresh-MayRenew_example = refresh-MayRenew test_env (encode ann_claims) shop refl

login_iff_example :
    Succeeds (login test_env "+201" "spring" shop).0
    ↔ GoodLogin test_env "+201" "spring" (find? (account_of "+201") shop.db.users)
login_iff_example = login_iff test_env "+201" "spring" shop

abbrev reset_dto : ResetPasswordDto
reset_dto = record {
  phone = "+201";
  otp = "000000";
  transaction_req_id = none;
  new_password = "winter";
  confirm_password = "winter";
}

reset_password-login_example :
    Succeeds
      (login test_env "+201" "winter"
        (reset_password test_env (Console.provider test_env) reset_dto shop).1).0
unfolding reset_password complete_reset saved_transaction get_otp_transaction_req_id redis_get
    redis_set redis_del Console.check_verification Console.newest_otp Console.hash_otp
    Console.reject_code increment_otp_attempts try_redis_set bump_cached_attempts bumped
    returned_attempts find? any update_where delete_where upsert_attempts clear_otp_attempts
    clear_otp_transaction_req_id use_otp generate_tokens save_refresh_token_jti upsert_refresh_token
    match_ttl parse_ttl_seconds unit_seconds parse_digits parse_int digits digits_from
    otp_attempts_key otp_transaction_key refresh_jti_key
reset_password-login_example =
    reset_password-login test_env (Console.provider test_env) reset_dto shop test_env-CryptoLaws
      refl

request_password_reset_otp-reveals_example :
    (message_of (request_password_reset_otp test_env (Console.provider test_env) "+209" shop).0
      ≡ some "If this number is registered, an OTP has been sent")
    ↔ (find? (account_of "+209") shop.db.users ≡ none)
request_password_reset_otp-reveals_example =
    request_password_reset_otp-reveals test_env (Console.provider test_env) "+209" shop

change_password-login_example :
    (str_eq "spring" "spring" ≡ true
      → ((change_password test_env 1 "spring" "winter" shop).0 ≡ ok tt)
        × Succeeds
            (login test_env "+201" "winter"
              (change_password test_env 1 "spring" "winter" shop).1).0)
    × (str_eq "spring" "spring" ≡ false
        → change_password test_env 1 "spring" "winter" shop
          ≡ (err (http bad_request "Invalid old password"), shop))
unfolding find?
change_password-login_example =
    change_password-login test_env 1 "spring" "winter" shop ann test_env-CryptoLaws refl refl refl
