-- ===== src/Examples/GatewayTests.antt =====
-- The properties of the chat's sockets at the sample tables: Ann's socket is 900, Bob's 901.
use market_place.Base.{◌≡◌, refl, arith, true, none, some, [], ◌∷◌, inr, any, find?}
use market_place.Store.{ok}
use market_place.Chat.Guards.{has_block_between_users}
use market_place.Chat.Messages.{is_blank}
use market_place.Chat.Messages.Reading.{new_message}
use market_place.Chat.Gateway.{
  Hub, Handshake, Emission, message_received, user_of, handle_connection, send,
}
use market_place.Chat.Gateway.Steps.{opened, joins}
use market_place.Chat.Gateway.Posting.{is_reached, send-reaches}
use market_place.Examples.Fixture.{shop, talk, ann_claims, number_driver}
use market_place.Examples.Tokens.{test_env}

abbrev ann_handshake : Handshake
ann_handshake = record {
  auth_token = none;
  authorization =
      some (test_env.jwt_sign test_env.jwt_access_secret test_env.jwt_access_ttl 100 ann_claims);
}

abbrev with_ann : Hub
with_ann = handle_connection test_env ann_handshake 900 (opened shop)

abbrev with_both : Hub
with_both = record (opened shop) {
  users = (900, 1) ∷ (901, 2) ∷ [];
  registry = record (opened shop).registry { joins = (40, 900) ∷ [] };
}

send-reaches_example :
    let m = new_message 40 2 "Hi Ann" shop in
    let after = send number_driver 901 40 "Hi Ann" with_both in
    (after.0 ≡ ok m)
    × ((x : Emission) × ((after.1.sent ≡ x ∷ [])
          × ((x.event ≡ message_received m)
              × ((is_reached 901 x.recipients ≡ true) × (is_reached 900 x.recipients ≡ true)))))
unfolding user_of find? any has_block_between_users is_blank
send-reaches_example =
    send-reaches number_driver 901 2 40 "Hi Ann" with_both talk 900 refl refl
      (omega arith, omega arith) (inr refl, refl) refl refl refl
