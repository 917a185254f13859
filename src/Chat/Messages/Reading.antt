-- ===== src/Chat/Messages/Reading.antt =====
-- What sending and reading a message leaves in the tables.
use market_place.Base.{
  inl, inr, ==_self, ℕ, ◌+◌, ◌<◌, ◌≡◌, refl, ap, String, true, false, Option, none, some, List, ◌∷◌,
  find?, any, update_where, find?-update_where, any_of_find?, ◌==◌, or_else, get_or_else, ◌∙◌,
}
use market_place.Store.{outcome-cases, World, Result, ok, User, Conversation, Message}
use market_place.Chat.Guards.{Driver, assert_conversation_participant}
use market_place.Chat.Guards.Access.{
  assert_conversation_participant-frame, assert_conversation_participant_iff, MayUse, HasSides,
}
use market_place.Chat.Messages.{is_blank, insert_message, send_message, mark_read, read_now}

-- an outcome with its world is the pair of both
paired :
    {A : Type 0} (x : Result A × World) {a : A} {w : World} → x.0 ≡ ok a → x.1 ≡ w → x ≡ (ok a, w)
paired (r, w') h e = rw (h, e)

pub guard_passes :
    (d : Driver) (id user_id : ℕ) (w : World) (c : Conversation)
    → find? (λ (x : Conversation). x.id == id) w.db.conversations ≡ some c
    → HasSides c
    → MayUse user_id c w.db.blocks
    → assert_conversation_participant d id user_id w ≡ (ok tt, w)
guard_passes d id user_id w c found sides may =
    paired (assert_conversation_participant d id user_id w)
      ((assert_conversation_participant_iff d id user_id w c found sides).1 may)
      (assert_conversation_participant-frame d id user_id w)

any_of_conversation :
    (id : ℕ) (rows : List Conversation) {c : Conversation}
    → find? (λ (x : Conversation). x.id == id) rows ≡ some c
    → any (λ (x : Conversation). x.id == id) rows ≡ true
any_of_conversation id rows found = any_of_find? (λ (x : Conversation). x.id == id) rows found

abbrev pub new_message : ℕ → ℕ → String → World → Message
new_message conversation_id sender_id text w = record {
  id = w.next_id;
  conversation_id = conversation_id;
  sender_id = sender_id;
  message_text = text;
  sent_at = w.now;
  read_at = none;
}

insert_message-ok :
    (conversation_id sender_id : ℕ) (text : String) (w : World)
    → is_blank text ≡ false
    → any (λ (c : Conversation). c.id == conversation_id) w.db.conversations ≡ true
    → any (λ (u : User). u.id == sender_id) w.db.users ≡ true
    → insert_message conversation_id sender_id text w ≡ (
      ok (new_message conversation_id sender_id text w),
      record w {
        next_id = w.next_id + 1;
        db = record w.db {
          messages = new_message conversation_id sender_id text w ∷ w.db.messages;
        };
      },
    )
unfolding insert_message
insert_message-ok conversation_id sender_id text w filled conversation sender =
    rw (filled, conversation, sender) refl

-- A side of a conversation, who is in the table of users, sends a text with something else than
-- spaces while no block stands between the two: the text becomes the newest message, unread, and
-- the last message of the conversation, and the other messages stay as they are.
pub send_message-posts :
    (d : Driver) (user_id id : ℕ) (text : String) (w : World) (c : Conversation)
    → find? (λ (x : Conversation). x.id == id) w.db.conversations ≡ some c
    → HasSides c
    → MayUse user_id c w.db.blocks
    → any (λ (u : User). u.id == user_id) w.db.users ≡ true
    → is_blank text ≡ false
    → let m = new_message id user_id text w in
      let after = send_message d user_id id text w in
      (after.0 ≡ ok m)
      × (after.1.db.messages ≡ m ∷ w.db.messages)
      × (find? (λ (x : Conversation). x.id == id) after.1.db.conversations
          ≡ some (record c { last_message_id = some m.id }))
unfolding send_message
send_message-posts d user_id id text w c found sides may sender filled =
    let conversation = any_of_conversation id w.db.conversations found in
    rw
      (
        guard_passes d id user_id w c found sides may,
        insert_message-ok id user_id text w filled conversation sender,
      )
      (
        refl,
        refl,
        find?-update_where (λ (x : Conversation). x.id == id) _ (λ x. refl) w.db.conversations
            found,
      )

-- a message that was read keeps the time of its first reading
pub read_now_twice :
    (now later : ℕ) (m : Message) → read_now later (read_now now m) ≡ read_now now m
read_now_twice now later m = ap (λ r. record m { read_at = r }) (first m.read_at)
  where
    first : (r : Option ℕ) → or_else (or_else r (some now)) (some later) ≡ or_else r (some now)
    first none = refl
    first (some t) = refl

abbrev pub at_time : ℕ → World → World
at_time t w = record w { now = t }

mark_read-marks :
    (d : Driver) (user_id id : ℕ) (w : World) (m : Message) (c : Conversation)
    → find? (λ (x : Message). x.id == id) w.db.messages ≡ some m
    → (0 < m.conversation_id) × (0 < m.sender_id)
    → find? (λ (x : Conversation). x.id == m.conversation_id) w.db.conversations ≡ some c
    → HasSides c
    → MayUse user_id c w.db.blocks
    → (m.sender_id == user_id) ≡ false
    → mark_read d user_id id w ≡ (
      ok (read_now w.now m),
      record w {
        db = record w.db {
          messages = update_where (λ (x : Message). x.id == id) (read_now w.now) w.db.messages;
        };
      },
    )
unfolding mark_read
mark_read-marks d user_id id w m c found (pc, ps) conversation sides may recipient =
    rw
      (
        found,
        d.int8_reads m.conversation_id pc,
        d.int8_reads m.sender_id ps,
        guard_passes d m.conversation_id user_id w c conversation sides may,
        recipient,
        find?-update_where (λ (x : Message). x.id == id) (read_now w.now) (λ x. refl) w.db.messages
            found,
      )
      refl

-- the message with the time of its first reading: that of an earlier one, or else `now`
first_read :
    (now : ℕ) (m : Message)
    → read_now now m ≡ record m { read_at = some (get_or_else m.read_at now) }
first_read now m = ap (λ r. record m { read_at = r }) (first m.read_at)
  where
    first : (r : Option ℕ) → or_else r (some now) ≡ some (get_or_else r now)
    first none = refl
    first (some t) = refl

-- A recipient who may use the conversation of a message marks it read: the answer and the row in
-- the table are the message with a time of reading, which is that of an earlier reading if there
-- was one and else the present; marking it again at any later time answers with the same message,
-- that time included.
pub mark_read_once :
    (d : Driver) (user_id id : ℕ) (w : World) (m : Message) (c : Conversation)
    → find? (λ (x : Message). x.id == id) w.db.messages ≡ some m
    → (0 < m.conversation_id) × (0 < m.sender_id)
    → find? (λ (x : Conversation). x.id == m.conversation_id) w.db.conversations ≡ some c
    → HasSides c
    → MayUse user_id c w.db.blocks
    → (m.sender_id == user_id) ≡ false
    → (later : ℕ)
    → let first = mark_read d user_id id w in
      let read : Message = record m { read_at = some (get_or_else m.read_at w.now) } in
      (first.0 ≡ ok read)
      × (find? (λ (x : Message). x.id == id) first.1.db.messages ≡ some read)
      × ((mark_read d user_id id (at_time later first.1)).0 ≡ ok read)
mark_read_once d user_id id w m c found positive conversation sides may recipient later =
    let once = mark_read-marks d user_id id w m c found positive conversation sides may recipient in
    let marked =
      find?-update_where (λ (x : Message). x.id == id) (read_now w.now) (λ x. refl) w.db.messages
        found in
    let w' = record w {
      now = later;
      db = record w.db {
        messages = update_where (λ (x : Message). x.id == id) (read_now w.now) w.db.messages;
      };
    } in
    let again =
      mark_read-marks d user_id id w' (read_now w.now m) c marked positive conversation sides may
        recipient in
    let read = first_read w.now m in
    rw once
      (ap ok read, marked ∙ ap some read, rw again (ap ok (read_now_twice w.now later m ∙ read)))

-- The sender of a stored message with positive ids cannot mark it read, whatever else holds, and
-- nothing changes.
mark_read-refuses_sender :
    (d : Driver) (id : ℕ) (w : World) (m : Message)
    → find? (λ (x : Message). x.id == id) w.db.messages ≡ some m
    → (0 < m.conversation_id) × (0 < m.sender_id)
    → ((r : Message) → (mark_read d m.sender_id id w).0 ≡ ok r → ⊥)
      × ((mark_read d m.sender_id id w).1 ≡ w)
unfolding mark_read
mark_read-refuses_sender d id w m found (pc, ps) =
    elim (outcome-cases (assert_conversation_participant d m.conversation_id m.sender_id w) w
      (assert_conversation_participant-frame d m.conversation_id m.sender_id w)) [
        | inl (u, passed) ↦
            rw
              (
                found,
                d.int8_reads m.conversation_id pc,
                d.int8_reads m.sender_id ps,
                passed,
                ==_self m.sender_id,
              )
              (λ r h. cc, refl)
        | inr (e, refused) ↦
            rw (found, d.int8_reads m.conversation_id pc, d.int8_reads m.sender_id ps, refused)
              (λ r h. cc, refl)
      ]
