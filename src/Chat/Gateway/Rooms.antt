-- ===== src/Chat/Gateway/Rooms.antt =====
-- Who is in the rooms: the parts of the invariant of the chat, and what each change does to them.
use market_place.Base.{
  ℕ, ◌≡◌, arith, true, Option, none, some, List, [], ◌∷◌, ◌==◌, ==_iff, All, All-map, Option-cases,
  Bool-cases, inl, inr,
}
use market_place.Store.{Conversation}
use market_place.Chat.Gateway.{Hub, Emission, user_of, in_room}
use market_place.Chat.Gateway.Steps.{sides_at, is_one_of, KeepsSides}
use market_place.Chat.Gateway.Sides.{KeepsSides-is_one_of}

-- A socket in a room is one of a side of the conversation.
abbrev pub Admits : List (ℕ × ℕ) → List Conversation → ℕ × ℕ → Type 0
Admits users rows (room, socket) = is_one_of (user_of socket users) (sides_at room rows) ≡ true

abbrev pub RoomsSound : List (ℕ × ℕ) → List Conversation → List (ℕ × ℕ) → Type 0
RoomsSound users rows joins = All (Admits users rows) joins

-- The registered sockets of a user are the user's.
abbrev pub Owns : List (ℕ × ℕ) → ℕ → ℕ → Type 0
Owns users u socket = user_of socket users ≡ some u

abbrev pub SocketsSound : List (ℕ × ℕ) → List (ℕ × List ℕ) → Type 0
SocketsSound users table = All (λ (e : ℕ × List ℕ). All (Owns users e.0) e.1) table

-- An emission went to sides of its conversation.
abbrev pub Reaches : List Conversation → Emission → Type 0
Reaches rows x =
    All (λ (r : ℕ × Option ℕ). is_one_of r.1 (sides_at x.room rows) ≡ true) x.recipients

abbrev pub SentSound : List Conversation → List Emission → Type 0
SentSound rows sent = All (Reaches rows) sent

pub record IsSound (hub : Hub) : Type 0 where
  pub rooms_sound : RoomsSound hub.users hub.world.db.conversations hub.registry.joins
  pub sockets_sound : SocketsSound hub.users hub.registry.sockets_by_user_id
  pub sent_sound : SentSound hub.world.db.conversations hub.sent

module _ (before after : List Conversation) (keeps : KeepsSides before after) where
  pub RoomsSound-kept :
      (users joins : List (ℕ × ℕ)) → RoomsSound users before joins → RoomsSound users after joins
  RoomsSound-kept users joins h =
      All-map (Admits users before) (Admits users after)
        (λ j side. KeepsSides-is_one_of before after (user_of j.1 users) j.0 keeps side) joins h

  pub SentSound-kept : (sent : List Emission) → SentSound before sent → SentSound after sent
  SentSound-kept sent h =
      All-map (Reaches before) (Reaches after)
        (λ x reached.
          All-map (λ (r : ℕ × Option ℕ). is_one_of r.1 (sides_at x.room before) ≡ true)
            (λ (r : ℕ × Option ℕ). is_one_of r.1 (sides_at x.room after) ≡ true)
            (λ r side. KeepsSides-is_one_of before after r.1 x.room keeps side) x.recipients
            reached)
        sent h

-- Whoever is in a sound room is a side.
pub in_room_sound :
    (room : ℕ) (users : List (ℕ × ℕ)) (rows : List Conversation) (joins : List (ℕ × ℕ))
    → RoomsSound users rows joins
    → All
        (λ (r : ℕ × Option ℕ). is_one_of r.1 (sides_at room rows) ≡ true)
        (in_room room users joins)
unfolding in_room
in_room_sound room users rows [] h = tt
in_room_sound room users rows ((r, socket) ∷ joins) (side, h) = elim (Bool-cases (r == room)) [
  | inl same ↦
      let here : r ≡ room = (==_iff r room).0 same in
      rw same (rw here at side, in_room_sound room users rows joins h)
  | inr other ↦ rw other (in_room_sound room users rows joins h)
]

-- A new socket changes no other's user.
module _ (socket u : ℕ) (users : List (ℕ × ℕ)) (fresh : user_of socket users ≡ none) where
  pub Owns-connected : (v s : ℕ) → Owns users v s → Owns ((socket, u) ∷ users) v s
  unfolding user_of
  Owns-connected v s h = elim (Bool-cases (socket == s)) [
    | inl same ↦
        let here : socket ≡ s = (==_iff socket s).0 same in
        absurd (ground (arith, rw here at fresh, h))
    | inr other ↦ rw other h
  ]

  pub RoomsSound-connected :
      (rows : List Conversation) (joins : List (ℕ × ℕ))
      → RoomsSound users rows joins
      → RoomsSound ((socket, u) ∷ users) rows joins
  RoomsSound-connected rows joins h =
      All-map (Admits users rows) (Admits ((socket, u) ∷ users) rows)
        (λ j side. elim (Option-cases (user_of j.1 users)) [
          | inl nobody ↦ absurd (ground (arith, side, nobody))
          | inr (v, owner) ↦ rw (Owns-connected v j.1 owner) (rw owner at side)
        ])
        joins h

  pub SocketsSound-connected :
      (table : List (ℕ × List ℕ))
      → SocketsSound users table
      → SocketsSound ((socket, u) ∷ users) table
  SocketsSound-connected table h =
      All-map (λ (e : ℕ × List ℕ). All (Owns users e.0) e.1)
        (λ (e : ℕ × List ℕ). All (Owns ((socket, u) ∷ users) e.0) e.1)
        (λ e own.
          All-map (Owns users e.0) (Owns ((socket, u) ∷ users) e.0) (Owns-connected e.0) e.1 own)
        table h
