-- ===== src/Chat/Conversations/Identity.antt =====
-- One conversation for each pair of users.
use market_place.Base.{
  ℕ, ◌≡◌, refl, sym, ◌∙◌, String, true, false, Option, none, some, arith, find?, update_where,
  find?-update_where_if, ◌==◌, ==_self, Option-cases, Bool-cases, inl, inr, ◌&&◌, is_some,
  find?-sound,
}
use market_place.Store.{
  World, Result, ok, err, Conversation, continue, handle, throw, outcome-cases,
}
use market_place.Chat.Guards.{
  Driver, assert_user_exists, has_block_between_users, assert_conversation_participant, is_account,
}
use market_place.Chat.Conversations.{
  ConversationRow, ordered, is_pair, set_product, insert_conversation, find_or_insert,
  get_conversation_by_id, get_or_create_conversation, validated_product, check_product,
  conversation_row, truthy, has_peer, foreign_key_as,
}

pub ordered_comm : (a b : ℕ) → ordered a b ≡ ordered b a
unfolding ordered
ordered_comm a b = ground arith

-- Asking for a conversation only reads.
get_conversation_by_id-frame :
    (d : Driver) (user_id id : ℕ) (w : World) → (get_conversation_by_id d user_id id w).1 ≡ w
unfolding get_conversation_by_id assert_conversation_participant
get_conversation_by_id-frame d user_id id w = ground arith

get_conversation_by_id-id :
    (d : Driver) (user_id id : ℕ) (w : World) {row : ConversationRow}
    → (get_conversation_by_id d user_id id w).0 ≡ ok row
    → row.id ≡ id
unfolding get_conversation_by_id assert_conversation_participant conversation_row
get_conversation_by_id-id d user_id id w {row} h =
    elim (Option-cases
      (find? (λ (c : Conversation). c.id == id && has_peer user_id w.db c) w.db.conversations)) [
        | inl missing ↦ absurd (ground (arith, missing))
        | inr (c, found) ↦
            let same =
              find?-sound (λ (c : Conversation). c.id == id && has_peer user_id w.db c)
                w.db.conversations found in
            ground (arith, found, same)
      ]

validated_product-frame :
    (d : Driver) (user_id participant_id : ℕ) (product : Option ℕ) (w : World)
    → (validated_product d user_id participant_id product w).1 ≡ w
unfolding validated_product check_product
validated_product-frame d user_id participant_id none w = refl
validated_product-frame d user_id participant_id (some id) w = ground arith

-- What a conversation of the pair is found as.
abbrev Finds : ℕ × ℕ → ℕ → World → Type 0
Finds pair id w =
    (c : Conversation) × (find? (is_pair pair) w.db.conversations ≡ some c) × (c.id ≡ id)

set_product-Finds :
    (pair : ℕ × ℕ) (product : Option ℕ) (c : Conversation) (w : World)
    → find? (is_pair pair) w.db.conversations ≡ some c
    → (w' : World) × (set_product product c w ≡ (ok tt, w')) × Finds pair c.id w'
unfolding set_product
set_product-Finds pair none c w found = (w, refl, (c, found, refl))
set_product-Finds pair (some p) c w found = elim (Bool-cases (is_some (truthy c.product_id))) [
  | inl has ↦ (w, rw has, (c, found, refl))
  | inr lacks ↦
      let moved =
        find?-update_where_if (λ (x : Conversation). x.id == c.id) (is_pair pair)
          (λ x. record x { product_id = some p }) (λ x. refl) w.db.conversations found in
      (
        record w {
          db = record w.db {
            conversations =
                update_where (λ (x : Conversation). x.id == c.id)
                  (λ x. record x { product_id = some p }) w.db.conversations;
          };
        },
        rw lacks,
        (record c { product_id = some p }, rw (==_self c.id) at moved, refl),
      )
]

insert_conversation-finds :
    (pair : ℕ × ℕ) (product : Option ℕ) (w : World) {id : ℕ}
    → (insert_conversation pair product w).0 ≡ ok id
    → (c : Conversation) × (find?
          (is_pair pair)
          (insert_conversation pair product w).1.db.conversations
        ≡ some c)
      × (c.id ≡ id)
unfolding insert_conversation find?
insert_conversation-finds (a, b) product w h = (
  record {
    id = w.next_id;
    user_a_id = a;
    user_b_id = b;
    product_id = product;
    last_message_id = none;
    created_at = w.now;
  },
  ground (arith, h),
  ground (arith, h),
)

caught-ok :
    (message : String) (x : Result ℕ × World) {id : ℕ}
    → (handle x (λ e. throw (foreign_key_as message e))).0 ≡ ok id
    → (x.0 ≡ ok id) × (handle x (λ e. throw (foreign_key_as message e)) ≡ x)
caught-ok message (ok a, w) h = (h, refl)
caught-ok message (err e, w) h = cc

find_or_insert-Finds :
    (pair : ℕ × ℕ) (product : Option ℕ) (w : World) {id : ℕ}
    → let done = find_or_insert pair product (find? (is_pair pair) w.db.conversations) w in
      done.0 ≡ ok id → Finds pair id done.1
unfolding find_or_insert
find_or_insert-Finds pair product w h =
    elim (Option-cases (find? (is_pair pair) w.db.conversations)) [
      | inl missing ↦
          let (inserted, same) =
            caught-ok "Participant or product not found" (insert_conversation pair product w)
              (rw missing at h) in
          rw (missing, same) (insert_conversation-finds pair product w inserted)
      | inr (c, found) ↦
          let (w', set, finds) = set_product-Finds pair product c w found in
          let h1 = rw (found, set) at h in rw (found, set) (finds.0, finds.1, finds.2 ∙ ok_path h1)
    ]
  where
    ok_path : {a b : ℕ} → ok a ≡ ok b → a ≡ b
    ok_path e = cc

-- the conversation of the pair that is there already is the one that is used
find_or_insert-existing :
    (pair : ℕ × ℕ) (product : Option ℕ) (w : World) (c : Conversation)
    → find? (is_pair pair) w.db.conversations ≡ some c
    → (w' : World) × (find_or_insert pair product (some c) w ≡ (ok c.id, w')) × Finds pair c.id w'
unfolding find_or_insert
find_or_insert-existing pair product w c found =
    let (w', set, finds) = set_product-Finds pair product c w found in (w', rw set, finds)

module _ (d : Driver) (user_id participant_id : ℕ) (product : Option ℕ) (w : World) where
  abbrev pub the_pair : ℕ × ℕ
  the_pair = ordered user_id participant_id

  -- A call that ends well has passed its guards: it is the last three statements.
  guards_passed :
      {row : ConversationRow}
      → (get_or_create_conversation d user_id participant_id product w).0 ≡ ok row
      → (p : Option ℕ) × (get_or_create_conversation d user_id participant_id product w
          ≡ continue
              (find_or_insert the_pair p (find? (is_pair the_pair) w.db.conversations) w)
              (λ id. get_conversation_by_id d user_id id))
  unfolding get_or_create_conversation assert_user_exists
  guards_passed h =
      let distinct : (user_id == participant_id) ≡ false = ground (arith, h) in
      let known : is_account participant_id w.db.users ≡ true = ground (arith, h, distinct) in
      let free : has_block_between_users user_id participant_id w.db.blocks ≡ false =
        ground (arith, h, distinct, known) in
      elim (outcome-cases (validated_product d user_id participant_id (truthy product) w) w
        (validated_product-frame d user_id participant_id (truthy product) w)) [
          | inl (p, valid) ↦ (p, rw (distinct, known, free, valid))
          | inr (e, invalid) ↦ absurd (ground (arith, h, distinct, known, free, invalid))
        ]

-- the conversation is read back, and has the id that was found or made
read_back :
    (d : Driver) (pair : ℕ × ℕ) (user_id : ℕ) (x : Result ℕ × World) {row : ConversationRow}
    → ((id : ℕ) → x.0 ≡ ok id → Finds pair id x.1)
    → (continue x (λ id. get_conversation_by_id d user_id id)).0 ≡ ok row
    → Finds pair row.id (continue x (λ id. get_conversation_by_id d user_id id)).1
read_back d pair user_id (ok id, w) finds h =
    let (c, found, same) = finds id refl in
    let read = get_conversation_by_id-id d user_id id w h in
    rw (get_conversation_by_id-frame d user_id id w) (c, found, same ∙ sym read)
read_back d pair user_id (err e, w) finds h = cc

module _ (d : Driver) (user_id participant_id : ℕ) (product : Option ℕ) (w : World) where
  -- The conversation that a successful call answers with is the one of the pair.
  get_or_create-Finds :
      {row : ConversationRow}
      → (get_or_create_conversation d user_id participant_id product w).0 ≡ ok row
      → Finds
          (ordered user_id participant_id)
          row.id
          (get_or_create_conversation d user_id participant_id product w).1
  get_or_create-Finds h =
      let (p, e) = guards_passed d user_id participant_id product w h in
      rw e (
        read_back d (ordered user_id participant_id) user_id _
          (λ id. find_or_insert-Finds (ordered user_id participant_id) p w {id = id}) (rw e at h))

  -- A conversation of the pair that is there is the one that a successful call answers with.
  get_or_create-existing :
      (c : Conversation) {row : ConversationRow}
      → find? (is_pair (ordered user_id participant_id)) w.db.conversations ≡ some c
      → (get_or_create_conversation d user_id participant_id product w).0 ≡ ok row
      → row.id ≡ c.id
  get_or_create-existing c found h =
      let (p, e) = guards_passed d user_id participant_id product w h in
      let (w', done, _) = find_or_insert-existing (ordered user_id participant_id) p w c found in
      let h1 = rw (e, found, done) at h in get_conversation_by_id-id d user_id c.id w' h1

-- Two users have one conversation: after a successful call, a successful call by either of them,
-- about whatever product, answers with the same conversation.
pub get_or_create_conversation-same :
    (d : Driver) (user_id participant_id : ℕ) (product product' : Option ℕ) (w : World)
    {row row' : ConversationRow}
    → let after = (get_or_create_conversation d user_id participant_id product w).1 in
      (get_or_create_conversation d user_id participant_id product w).0 ≡ ok row
      → ((get_or_create_conversation d user_id participant_id product' after).0 ≡ ok row'
          → row'.id ≡ row.id)
        × ((get_or_create_conversation d participant_id user_id product' after).0 ≡ ok row'
            → row'.id ≡ row.id)
get_or_create_conversation-same d user_id participant_id product product' w h =
    let (c, found, same) = get_or_create-Finds d user_id participant_id product w h in
    let after = (get_or_create_conversation d user_id participant_id product w).1 in
    (
      λ again. get_or_create-existing d user_id participant_id product' after c found again ∙ same,
      λ again.
          get_or_create-existing d participant_id user_id product' after c
            (rw (← ordered_comm user_id participant_id) found) again
          ∙ same,
    )
