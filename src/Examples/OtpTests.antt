-- ===== src/Examples/OtpTests.antt =====
-- The properties of one-time passwords and registration at the sample tables.
use market_place.Base.{◌≡◌, refl, arith, String, false, none, some, str_eq}
use market_place.Base.Decimal.{digits, digits_from, parse_digits, parse_int}
use market_place.Store.{World, ok, registration, redis_set, redis_get, redis_del}
use market_place.Base.{◌↔◌, [], ◌∷◌, find?, any, update_where, delete_where, ◌&&◌}
use market_place.Store.{Otp, OtpPurpose}
use market_place.Auth.Console
use market_place.Auth.Console.Code.{
  Matches, check_verification_iff, locked_code_accepted, start-check_verification, enter,
}
use market_place.Auth.Console.Checks.{IsBelow, counter, increment_otp_attempts-IsBelow}
use market_place.Auth.StateStore.{
  increment_otp_attempts, returned_attempts, same_purpose, saved_transaction,
  get_otp_transaction_req_id, try_redis_set, bump_cached_attempts, bumped, upsert_attempts,
  clear_otp_attempts, clear_otp_transaction_req_id, save_refresh_token_jti, upsert_refresh_token,
  otp_attempts_key, otp_transaction_key, refresh_jti_key,
}
use market_place.Auth.Provider.{CheckPayload, StartPayload}
use market_place.Auth.Registration.{
  verify_registration_otp, new_user, use_otp, insert_user, complete_registration,
}
use market_place.Auth.Registration.Complete.{Registered}
use market_place.Auth.Registration.Verify.{
  UniquePhones, verify_registration_otp-Registered, verify_registration_otp-unchanged,
  verify_registration_otp-UniquePhones,
}
use market_place.Auth.Tokens.{
  map_to_app_user, generate_tokens, match_ttl, parse_ttl_seconds, unit_seconds,
}
use market_place.Base.{false}
use market_place.Examples.Tokens.{test_env, encode, encode_number, encode_text}
use market_place.Examples.Fixture.{shop, carl_otp}

abbrev carl_check : CheckPayload
carl_check = record {
  phone = "+203";
  code = "000000";
  purpose = registration;
  transaction_req_id = none;
}

check_verification_iff_example :
    ((Console.check_verification test_env carl_check shop).0
      ≡ ok (record { local_otp_id = some 5 }))
    ↔ ((o : Otp) × (Console.newest_otp "+203" registration shop.db.otps ≡ some o)
        × (o.id ≡ 5)
        × Matches test_env 100 "000000" o)
check_verification_iff_example = check_verification_iff test_env carl_check shop 5

abbrev four_wrong : World
four_wrong = record shop {
  db = record shop.db {
    otp_attempts =
        record { phone = "+203"; purpose = registration; attempts = 4; expires_at = 500 } ∷ [];
  };
}

abbrev carl_try : String → CheckPayload
carl_try code = record {
  phone = "+203";
  code = code;
  purpose = registration;
  transaction_req_id = some "t";
}

locked_code_accepted_example :
    (Console.check_verification test_env
      (carl_try "000000")
      (Console.check_verification test_env (carl_try "123456") four_wrong).1).0
    ≡ ok (record { local_otp_id = some 5 })
unfolding saved_transaction get_otp_transaction_req_id redis_get redis_set redis_del
    Console.check_verification Console.newest_otp Console.hash_otp Console.reject_code
    increment_otp_attempts try_redis_set bump_cached_attempts bumped returned_attempts find? any
    update_where delete_where upsert_attempts clear_otp_attempts
locked_code_accepted_example =
    locked_code_accepted test_env "+203" "123456" "000000" "t" registration four_wrong carl_otp refl
      (refl, omega arith, refl) refl

abbrev carl_start : StartPayload
carl_start = record {
  phone = "+203";
  purpose = registration;
  user_id = none;
  end_user_ip = none;
  pow_solution = none;
  turnstile_token = none;
}

start-check_verification_example :
    (Console.check_verification test_env
      (enter carl_start (Console.sent_code test_env 4))
      (record (Console.start_verification test_env carl_start shop).1 { now = 250 })).0
    ≡ ok (record { local_otp_id = some 70 })
start-check_verification_example =
    start-check_verification test_env carl_start shop 250 (omega arith, (omega arith, tt))
      (omega arith)

increment_otp_attempts-IsBelow_example :
    IsBelow 5 (increment_otp_attempts "+203" registration 5 600 shop).1
    × ((other : String) (purpose : OtpPurpose)
        → (str_eq "+203" other && same_purpose registration purpose) ≡ false
        → counter other purpose (increment_otp_attempts "+203" registration 5 600 shop).1
          ≡ counter other purpose shop)
unfolding returned_attempts find?
increment_otp_attempts-IsBelow_example =
    increment_otp_attempts-IsBelow "+203" registration 5 600 shop (omega arith)
      (λ phone purpose. omega arith)

verify_registration_otp-UniquePhones_example :
    UniquePhones
      (verify_registration_otp test_env
        (Console.provider test_env)
        "+203"
        "000000"
        none
        shop).1.db.users
unfolding any
verify_registration_otp-UniquePhones_example =
    verify_registration_otp-UniquePhones test_env "+203" "000000" none shop (refl, (refl, tt))

verify_registration_otp-unchanged_example :
    let after =
      (verify_registration_otp test_env
        (Console.provider test_env)
        "+203"
        "123456"
        none
        shop).1.db in
    after ≡ record shop.db { otp_attempts = after.otp_attempts }
unfolding verify_registration_otp saved_transaction get_otp_transaction_req_id redis_get redis_set
    redis_del Console.check_verification Console.newest_otp Console.hash_otp Console.reject_code
    increment_otp_attempts try_redis_set bump_cached_attempts bumped returned_attempts find? any
    update_where delete_where upsert_attempts clear_otp_attempts
verify_registration_otp-unchanged_example =
    verify_registration_otp-unchanged test_env "+203" "123456" none shop refl

verify_registration_otp-Registered_example :
    Registered "+203" 100 shop.db
      (verify_registration_otp test_env (Console.provider test_env) "+203" "000000" none shop).1.db
      (record {
        user = map_to_app_user (new_user 70 "Carl" "+203" "autumn");
        tokens = record {
          access_token = encode (record {
            sub = 70;
            phone = "+203";
            is_admin = false;
            token_version = 0;
            jti = none;
          });
          refresh_token = encode (record {
            sub = 70;
            phone = "+203";
            is_admin = false;
            token_version = 0;
            jti = some "4";
          });
        };
      })
    × ((o : Otp) × (Console.newest_otp "+203" registration shop.db.otps ≡ some o)
        × Matches test_env 100 "000000" o)
unfolding verify_registration_otp complete_registration insert_user encode encode_number encode_text
    saved_transaction get_otp_transaction_req_id redis_get redis_set redis_del
    Console.check_verification Console.newest_otp Console.hash_otp Console.reject_code
    increment_otp_attempts try_redis_set bump_cached_attempts bumped returned_attempts find? any
    update_where delete_where upsert_attempts clear_otp_attempts clear_otp_transaction_req_id
    use_otp generate_tokens save_refresh_token_jti upsert_refresh_token match_ttl parse_ttl_seconds
    unit_seconds parse_digits parse_int digits digits_from otp_attempts_key otp_transaction_key
    refresh_jti_key
verify_registration_otp-Registered_example =
    verify_registration_otp-Registered test_env "+203" "000000" none shop refl
