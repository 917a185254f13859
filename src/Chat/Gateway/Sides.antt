-- ===== src/Chat/Gateway/Sides.antt =====
-- The sides of conversations: which changes of the table keep them, and whom the guard lets pass.
use market_place.Base.{
  ℕ, ◌≡◌, refl, ap, arith, Bool, true, Option, none, some, List, [], ◌∷◌, ◌==◌, ==_iff, find?,
  find?-sound, update_where, Option-cases, Bool-cases, inl, inr, All, All-find?,
}
use market_place.Base.JsValue.{to_positive_int}
use market_place.Store.{World, ok, Conversation}
use market_place.Chat.Guards.{
  Driver, assert_conversation_participant, get_conversation_participants,
}
use market_place.Chat.Guards.Access.{read_back}
use market_place.Chat.Gateway.Steps.{sides_at, is_one_of, KeepsSides}

-- Who was a side stays one.
pub KeepsSides-is_one_of :
    (before after : List Conversation) (o : Option ℕ) (room : ℕ)
    → KeepsSides before after
    → is_one_of o (sides_at room before) ≡ true
    → is_one_of o (sides_at room after) ≡ true
KeepsSides-is_one_of before after none room keeps h = h
KeepsSides-is_one_of before after (some u) room keeps h =
    elim (Option-cases (find? (λ (c : Conversation). c.id == room) before)) [
      | inl missing ↦ absurd (ground (arith, h, missing))
      | inr (c, found) ↦
          let here : c.id ≡ room =
            (==_iff c.id room).0 (find?-sound (λ (c : Conversation). c.id == room) before found) in
          let kept =
            All-find? (λ (c : Conversation). c.id == room)
              (λ (c : Conversation). sides_at c.id after ≡ sides_at c.id before) before keeps
              found in
          let same : sides_at room after ≡ sides_at room before = rw here at kept in rw same h
    ]

-- Every conversation has the same sides.
abbrev pub SameSides : List Conversation → List Conversation → Type 0
SameSides before after = (id : ℕ) → sides_at id after ≡ sides_at id before

pub All-same :
    (all after rows : List Conversation)
    → SameSides all after
    → All (λ (c : Conversation). sides_at c.id after ≡ sides_at c.id all) rows
All-same all after [] same = tt
All-same all after (c ∷ rows) same = (same c.id, All-same all after rows same)

pub same-KeepsSides : (before after : List Conversation) → after ≡ before → KeepsSides before after
same-KeepsSides before after e =
    All-same before after before (λ id. ap (λ rows. sides_at id rows) e)

pub sides_at-update_where :
    (p : Conversation → Bool) (last : Option ℕ) (id : ℕ) (rows : List Conversation)
    → sides_at id (update_where p (λ c. record c { last_message_id = last }) rows)
      ≡ sides_at id rows
unfolding update_where find?
sides_at-update_where p last id [] = refl
sides_at-update_where p last id (c ∷ rows) = elim (Bool-cases (p c)) [
  | inl met ↦ elim (Bool-cases (c.id == id)) [
    | inl here ↦ rw (met, here) refl
    | inr there ↦ rw (met, there) (sides_at-update_where p last id rows)
  ]
  | inr unmet ↦ elim (Bool-cases (c.id == id)) [
    | inl here ↦ rw (unmet, here) refl
    | inr there ↦ rw (unmet, there) (sides_at-update_where p last id rows)
  ]
]

-- Whoever passes the guard of a conversation is a side of it.
pub guard-is_one_of :
    (driver : Driver) (id user_id : ℕ) (w : World)
    → (assert_conversation_participant driver id user_id w).0 ≡ ok tt
    → is_one_of (some user_id) (sides_at id w.db.conversations) ≡ true
unfolding assert_conversation_participant
guard-is_one_of driver id user_id w h =
    elim (Option-cases (find? (λ (c : Conversation). c.id == id) w.db.conversations)) [
      | inl missing ↦ absurd (ground (arith, h, missing))
      | inr (c, found) ↦ elim (Option-cases (to_positive_int (driver.int8 c.user_a_id))) [
        | inl no_a ↦ absurd (ground (arith, h, found, no_a))
        | inr (a, a_read) ↦ elim (Option-cases (to_positive_int (driver.int8 c.user_b_id))) [
          | inl no_b ↦ absurd (ground (arith, h, found, a_read, no_b))
          | inr (b, b_read) ↦ ground (
            arith,
            h,
            found,
            a_read,
            b_read,
            read_back driver c.user_a_id a a_read,
            read_back driver c.user_b_id b b_read,
          )
        ]
      ]
    ]

-- The participants that the registry is told are the two sides.
pub participants-is_one_of :
    (driver : Driver) (id : ℕ) (w : World) {a b : ℕ}
    → (get_conversation_participants driver id w).0 ≡ ok (a, b)
    → (is_one_of (some a) (sides_at id w.db.conversations) ≡ true)
      × (is_one_of (some b) (sides_at id w.db.conversations) ≡ true)
unfolding get_conversation_participants
participants-is_one_of driver id w {a} {b} h =
    elim (Option-cases (find? (λ (c : Conversation). c.id == id) w.db.conversations)) [
      | inl missing ↦ absurd (ground (arith, h, missing))
      | inr (c, found) ↦ elim (Option-cases (to_positive_int (driver.int8 c.user_a_id))) [
        | inl no_a ↦ absurd (ground (arith, h, found, no_a))
        | inr (a', a_read) ↦ elim (Option-cases (to_positive_int (driver.int8 c.user_b_id))) [
          | inl no_b ↦ absurd (ground (arith, h, found, a_read, no_b))
          | inr (b', b_read) ↦
              let here_a = read_back driver c.user_a_id a' a_read in
              let here_b = read_back driver c.user_b_id b' b_read in
              let same_a : a' ≡ a = ground (arith, h, found, a_read, b_read) in
              let same_b : b' ≡ b = ground (arith, h, found, a_read, b_read) in
              (ground (arith, found, here_a, same_a), ground (arith, found, here_b, same_b))
        ]
      ]
    ]
