-- ===== src/Chat/Gateway/Services.antt =====
-- The services that the gateway calls: whom they let pass, and that they keep the sides of
-- conversations.
use market_place.Base.{
  ℕ, ◌≡◌, refl, ap, ◌∙◌, arith, String, true, Option, none, some, ◌==◌, find?, find?-update_where,
  Option-cases, Bool-cases, inl, inr,
}
use market_place.Base.JsValue.{to_positive_int}
use market_place.Store.{
  World, Result, ok, err, Error, continue, handle, throw, Conversation, Message,
}
use market_place.Chat.Guards.{Driver, participants, assert_conversation_participant}
use market_place.Chat.Guards.Access.{assert_conversation_participant-frame, read_back}
use market_place.Chat.Messages.{insert_message, send_message, mark_read, read_now}
use market_place.Chat.Conversations.{ConversationRow, foreign_key_as, get_conversation_by_id}
use market_place.Chat.Gateway.{open_conversation}
use market_place.Chat.Gateway.Steps.{sides_at, is_one_of, KeepsSides}
use market_place.Chat.Gateway.Sides.{guard-is_one_of, SameSides, All-same, sides_at-update_where}

-- A call that ended well passed its first part.
passed :
    {B : Type 0} (x : Result (Unit {0}) × World) (f : Unit {0} → World → Result B × World) {b : B}
    → (continue x f).0 ≡ ok b
    → x.0 ≡ ok tt
passed (ok tt, w) f h = refl
passed (err e, w) f h = cc

-- What both parts of a call keep, the call keeps.
continue-keeps :
    {A B : Type 0} (P : World → Type 0) (x : Result A × World) (f : A → World → Result B × World)
    → P x.1
    → ((a : A) (w : World) → P w → P (f a w).1)
    → P (continue x f).1
continue-keeps P (ok a, w) f h step = step a w h
continue-keeps P (err e, w) f h step = h

pub open_conversation-frame :
    (driver : Driver) (id user_id : ℕ) (w : World) → (open_conversation driver id user_id w).1 ≡ w
unfolding open_conversation get_conversation_by_id
open_conversation-frame driver id user_id w =
    let P : World → Type 0 = λ w'. w' ≡ w in
    let guard = assert_conversation_participant driver id user_id in
    continue-keeps P (guard w) _ (assert_conversation_participant-frame driver id user_id w)
      (λ a w' same.
        continue-keeps P (guard w') _
          (assert_conversation_participant-frame driver id user_id w' ∙ same)
          (λ b v same'. rw same' (ground arith)))

pub open_conversation-is_one_of :
    (driver : Driver) (id user_id : ℕ) (w : World) {row : ConversationRow}
    → (open_conversation driver id user_id w).0 ≡ ok row
    → is_one_of (some user_id) (sides_at id w.db.conversations) ≡ true
unfolding open_conversation
open_conversation-is_one_of driver id user_id w h =
    guard-is_one_of driver id user_id w
      (passed (assert_conversation_participant driver id user_id w) _ h)

pub send_message-is_one_of :
    (driver : Driver) (user_id id : ℕ) (t : String) (w : World) {m : Message}
    → (send_message driver user_id id t w).0 ≡ ok m
    → is_one_of (some user_id) (sides_at id w.db.conversations) ≡ true
unfolding send_message
send_message-is_one_of driver user_id id t w h =
    guard-is_one_of driver id user_id w
      (passed (assert_conversation_participant driver id user_id w) _ h)

insert_message-conversations :
    (id user_id : ℕ) (t : String) (w : World)
    → (insert_message id user_id t w).1.db.conversations ≡ w.db.conversations
unfolding insert_message
insert_message-conversations id user_id t w = ground arith

pub mark_read-conversations :
    (driver : Driver) (user_id id : ℕ) (w : World)
    → (mark_read driver user_id id w).1.db.conversations ≡ w.db.conversations
unfolding mark_read
mark_read-conversations driver user_id id w =
    elim (Option-cases (find? (λ (m : Message). m.id == id) w.db.messages)) [
      | inl missing ↦ rw missing refl
      | inr (m, found) ↦
          elim (Option-cases (
            participants (to_positive_int (driver.int8 m.conversation_id))
              (to_positive_int (driver.int8 m.sender_id)))) [
                | inl invalid ↦ rw (found, invalid) refl
                | inr ((c, s), valid) ↦
                    rw (found, valid)
                      (continue-keeps (λ w'. w'.db.conversations ≡ w.db.conversations)
                        (assert_conversation_participant driver c user_id w) _
                        (ap (λ (v : World). v.db.conversations)
                          (assert_conversation_participant-frame driver c user_id w))
                        (λ a w' same. ground (arith, same)))
              ]
    ]

rethrow-world :
    {A : Type 0} (x : Result A × World) (f : Error → Error) → (handle x (λ e. throw (f e))).1 ≡ x.1
rethrow-world (ok a, w) f = refl
rethrow-world (err e, w) f = refl

pub send_message-KeepsSides :
    (driver : Driver) (user_id id : ℕ) (t : String) (w : World)
    → KeepsSides w.db.conversations (send_message driver user_id id t w).1.db.conversations
unfolding send_message
send_message-KeepsSides driver user_id id t w =
    let before = w.db.conversations in
    let P : World → Type 0 = λ w'. SameSides before w'.db.conversations in
    let insert = insert_message id user_id t in
    let kept =
      continue-keeps P (assert_conversation_participant driver id user_id w) _
        (λ i.
          ap (λ (v : World). sides_at i v.db.conversations)
            (assert_conversation_participant-frame driver id user_id w))
        (λ a v same.
          continue-keeps P
            (handle (insert v) (λ e. throw (foreign_key_as "Conversation not found" e))) _
            (λ i.
              ap (sides_at i) (
                ap (λ (x : World). x.db.conversations)
                  (rethrow-world (insert v) (foreign_key_as "Conversation not found"))
                ∙ insert_message-conversations id user_id t v)
              ∙ same i)
            (λ m v' same' i.
              sides_at-update_where (λ (c : Conversation). c.id == id) (some m.id) i
                v'.db.conversations
              ∙ same' i)) in
    All-same before (send_message driver user_id id t w).1.db.conversations before kept

participants-first : (a b : Option ℕ) {x y : ℕ} → participants a b ≡ some (x, y) → a ≡ some x
participants-first none b h = ground (arith, h)
participants-first (some x) none h = ground (arith, h)
participants-first (some x) (some y) h = cc

ok-same : {m m' : Message} → ◌≡◌ {A = Result Message} (ok m) (ok m') → m ≡ m'
ok-same h = cc

guard_passed :
    (driver : Driver) (id user_id : ℕ) (w : World)
    → (assert_conversation_participant driver id user_id w).0 ≡ ok tt
    → assert_conversation_participant driver id user_id w ≡ (ok tt, w)
guard_passed driver id user_id w h =
    paired (assert_conversation_participant driver id user_id w) w h
      (assert_conversation_participant-frame driver id user_id w)
  where
    paired : (x : Result (Unit {0}) × World) (v : World) → x.0 ≡ ok tt → x.1 ≡ v → x ≡ (ok tt, v)
    paired (r, v') v h e = rw (h, e)

pub mark_read-is_one_of :
    (driver : Driver) (user_id id : ℕ) (w : World) {m : Message}
    → (mark_read driver user_id id w).0 ≡ ok m
    → is_one_of (some user_id) (sides_at m.conversation_id w.db.conversations) ≡ true
unfolding mark_read
mark_read-is_one_of driver user_id id w {m} h =
    elim (Option-cases (find? (λ (x : Message). x.id == id) w.db.messages)) [
      | inl missing ↦ absurd (ground (arith, h, missing))
      | inr (x, found) ↦
          elim (Option-cases (
            participants (to_positive_int (driver.int8 x.conversation_id))
              (to_positive_int (driver.int8 x.sender_id)))) [
                | inl invalid ↦ absurd (ground (arith, h, found, invalid))
                | inr ((c, s), valid) ↦
                    let checked = rw (found, valid) at h in
                    let guard =
                      passed (assert_conversation_participant driver c user_id w) _ checked in
                    let side = guard-is_one_of driver c user_id w guard in
                    let here =
                      read_back driver x.conversation_id c (participants-first _ _ valid) in
                    let read = rw (guard_passed driver c user_id w guard) at checked in
                    elim (Bool-cases (s == user_id)) [
                      | inl sender ↦ absurd (ground (arith, read, sender))
                      | inr recipient ↦
                          let after =
                            find?-update_where (λ (y : Message). y.id == id) (read_now w.now)
                              (λ y. refl) w.db.messages found in
                          let same =
                            ap (λ (y : Message). y.conversation_id)
                              (ok-same (rw (recipient, after) at read)) in
                          rw (← same, ← here) side
                    ]
              ]
    ]
