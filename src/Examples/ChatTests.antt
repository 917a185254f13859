-- ===== src/Examples/ChatTests.antt =====
-- The properties of the chat at the sample tables.
use market_place.Base.{
  ◌≡◌, ◌↔◌, refl, arith, true, none, some, [], ◌∷◌, inl, inr, any, find?, All, ◌==◌,
}
use market_place.Base.JsValue.{to_positive_int}
use market_place.Store.{ok, Conversation, Message}
use market_place.Chat.Guards.{
  assert_conversation_participant, has_block_between_users, assert_user_exists,
}
use market_place.Chat.Guards.Access.{MayUse, assert_conversation_participant_iff}
use market_place.Chat.Conversations.{
  sell, listed, get_or_create_conversation, get_conversation_by_id, conversation_row,
  validated_product, check_product, find_or_insert, ordered, set_product,
}
use market_place.Chat.Conversations.Listing.{FitsScope, listed-MayUse}
use market_place.Chat.Conversations.Identity.{get_or_create_conversation-same}
use market_place.Chat.Messages.{send_message, mark_read, is_blank}
use market_place.Chat.Messages.Reading.{new_message, at_time, send_message-posts, mark_read_once}
use market_place.Chat.Registry.{Registry}
use market_place.Examples.Fixture.{shop, talk, hello, number_driver, text_driver}

assert_conversation_participant_iff_example :
    ((assert_conversation_participant number_driver 40 2 shop).0 ≡ ok tt) ↔ MayUse 2 talk []
unfolding find?
assert_conversation_participant_iff_example =
    assert_conversation_participant_iff number_driver 40 2 shop talk refl (omega arith, omega arith)

-- with ids as texts of digits
guard_on_texts : (assert_conversation_participant text_driver 40 1 shop).0 ≡ ok tt
unfolding find? any has_block_between_users
guard_on_texts =
    (assert_conversation_participant_iff text_driver 40 1 shop talk refl
        (omega arith, omega arith)).1
      (inl refl, refl)

listed-MayUse_example :
    All (λ c. MayUse 1 c [] × FitsScope sell 1 shop.db c) (listed 1 sell 20 0 shop.db)
listed-MayUse_example = listed-MayUse 1 sell 20 0 shop.db

send_message-posts_example :
    let m = new_message 40 2 "Hi Ann" shop in
    let after = send_message number_driver 2 40 "Hi Ann" shop in
    (after.0 ≡ ok m)
    × (after.1.db.messages ≡ m ∷ hello ∷ [])
    × (find? (λ (x : Conversation). x.id == 40) after.1.db.conversations
        ≡ some (record talk { last_message_id = some 70 }))
unfolding find? any has_block_between_users is_blank
send_message-posts_example =
    send_message-posts number_driver 2 40 "Hi Ann" shop talk refl (omega arith, omega arith)
      (inr refl, refl) refl refl

mark_read_once_example :
    let first = mark_read number_driver 2 50 shop in
    let read : Message = record hello { read_at = some 100 } in
    (first.0 ≡ ok read)
    × (find? (λ (x : Message). x.id == 50) first.1.db.messages ≡ some read)
    × ((mark_read number_driver 2 50 (at_time 200 first.1)).0 ≡ ok read)
unfolding find? any has_block_between_users
mark_read_once_example =
    mark_read_once number_driver 2 50 shop hello talk refl (omega arith, omega arith) refl
      (omega arith, omega arith) (inr refl, refl) refl 200

get_or_create_conversation-same_example :
    let after = (get_or_create_conversation number_driver 1 2 (some 20) shop).1 in
    let row = conversation_row 1 shop.db talk in
    ((get_or_create_conversation number_driver 1 2 none after).0 ≡ ok row → row.id ≡ row.id)
    × ((get_or_create_conversation number_driver 2 1 none after).0 ≡ ok row → row.id ≡ row.id)
unfolding get_or_create_conversation assert_user_exists any has_block_between_users
    validated_product check_product find? find_or_insert ordered set_product get_conversation_by_id
    assert_conversation_participant to_positive_int
get_or_create_conversation-same_example =
    get_or_create_conversation-same number_driver 1 2 (some 20) none shop
      {row = conversation_row 1 shop.db talk} {row' = conversation_row 1 shop.db talk} refl

abbrev nobody : Registry
nobody = record { has_server = true; sockets_by_user_id = []; joins = []; emitted = [] }
