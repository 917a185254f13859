-- ===== src/Chat/Gateway/Posting.antt =====
-- That a message reaches the sockets in its room.
use market_place.Base.{
  ℕ, ◌≡◌, refl, arith, String, Bool, false, true, Option, some, List, [], ◌∷◌, ◌==◌, ==_self, ◌&&◌,
  ◌||◌, any, find?,
}
use market_place.Store.{World, Result, ok, err, Conversation, Message, User}
use market_place.Chat.Guards.{Driver}
use market_place.Chat.Guards.Access.{MayUse, HasSides}
use market_place.Chat.Messages.{is_blank, send_message}
use market_place.Chat.Messages.Reading.{new_message, send_message-posts}
use market_place.Chat.Gateway.{
  Hub, WsEvent, message_received, Emission, user_of, enter, in_room, emit, finish, send,
}

-- whether the socket is in the room, and whether it is among those that an event went to
abbrev pub is_in : ℕ → ℕ → List (ℕ × ℕ) → Bool
is_in room socket joins = any (λ (j : ℕ × ℕ). j.0 == room && j.1 == socket) joins

abbrev pub is_reached : ℕ → List (ℕ × Option ℕ) → Bool
is_reached socket recipients = any (λ (r : ℕ × Option ℕ). r.0 == socket) recipients

in_room-is_reached :
    (room socket : ℕ) (users joins : List (ℕ × ℕ))
    → is_in room socket joins ≡ true
    → is_reached socket (in_room room users joins) ≡ true
unfolding any in_room
in_room-is_reached room socket users [] h = ground (arith, h)
in_room-is_reached room socket users ((r, s) ∷ joins) h =
    ground (arith, h, in_room-is_reached room socket users joins)

finish-ok :
    (socket : ℕ) (room : Message → ℕ) (event : Message → WsEvent) (hub : Hub)
    (x : Result Message × World) (m : Message)
    → x.0 ≡ ok m
    → finish socket room event hub x
      ≡ (ok m, emit (room m) (event m) (enter (room m) socket (record hub { world = x.1 })))
finish-ok socket room event hub (ok n, w) m h = rw (same h) refl
  where
    same : ◌≡◌ {A = Result Message} (ok n) (ok m) → n ≡ m
    same e = cc
finish-ok socket room event hub (err e, w) m h = cc

-- A side of a conversation whose socket sends a text with something else than spaces, while no block
-- stands between the two, is answered with the new message, and the newest emission is that message
-- to its own socket and to every socket in the room.
pub send-reaches :
    (driver : Driver) (socket user_id id : ℕ) (t : String) (hub : Hub) (c : Conversation)
    (other : ℕ)
    → user_of socket hub.users ≡ some user_id
    → find? (λ (x : Conversation). x.id == id) hub.world.db.conversations ≡ some c
    → HasSides c
    → MayUse user_id c hub.world.db.blocks
    → any (λ (u : User). u.id == user_id) hub.world.db.users ≡ true
    → is_blank t ≡ false
    → is_in id other hub.registry.joins ≡ true
    → let m = new_message id user_id t hub.world in
      let after = send driver socket id t hub in
      (after.0 ≡ ok m)
      × ((x : Emission) × ((after.1.sent ≡ x ∷ hub.sent)
            × ((x.event ≡ message_received m)
                × ((is_reached socket x.recipients ≡ true)
                    × (is_reached other x.recipients ≡ true)))))
unfolding send emit enter in_room any
send-reaches driver socket user_id id t hub c other owner found sides may known filled inside =
    let posted = send_message-posts driver user_id id t hub.world c found sides may known filled in
    let m = new_message id user_id t hub.world in
    let entered = (id, socket) ∷ hub.registry.joins in
    let done =
      finish-ok socket (λ m. id) message_received hub (send_message driver user_id id t hub.world) m
        posted.0 in
    rw (owner, done)
      (
        refl,
        (
          record {
            room = id;
            event = message_received m;
            recipients = in_room id hub.users entered;
          },
          (
            refl,
            (
              refl,
              (
                in_room-is_reached id socket hub.users entered (own id socket),
                in_room-is_reached id other hub.users entered (rest id socket inside),
              ),
            ),
          ),
        ),
      )
  where
    own : (r s : ℕ) → ((r == r && s == s) || is_in r s hub.registry.joins) ≡ true
    own r s = rw (==_self r, ==_self s) refl

    rest :
        (r s : ℕ)
        → is_in r other hub.registry.joins ≡ true
        → ((r == r && s == other) || is_in r other hub.registry.joins) ≡ true
    rest r s h = ground (arith, h)
