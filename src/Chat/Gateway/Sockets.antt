-- ===== src/Chat/Gateway/Sockets.antt =====
-- The registered sockets of a user are the user's, after sockets come and go, and those that a new
-- conversation brings into its room are its sides'.
use market_place.Base.{
  ℕ, ◌≡◌, refl, arith, false, true, none, some, List, [], ◌∷◌, ◌==◌, ==_iff, All, All-map,
  All-delete_where, All-delete_where_if, delete_where, Option-cases, Bool-cases, inl, inr,
  get_or_else,
}
use market_place.Base.JsValue.{JsValue, to_positive_int}
use market_place.Store.{Conversation}
use market_place.Chat.Registry.{
  Registry, sockets_of, forget, set_sockets, has, add, remove, register_user_socket,
  unregister_user_socket, unregister_from, keep_or_forget, unique_ids, join_all, join_users,
}
use market_place.Chat.Gateway.{user_of, unregister}
use market_place.Chat.Gateway.Steps.{sides_at, is_one_of}
use market_place.Chat.Gateway.Rooms.{Admits, RoomsSound, Owns, SocketsSound}

abbrev OwnsAll : List (ℕ × ℕ) → ℕ × List ℕ → Type 0
OwnsAll users e = All (Owns users e.0) e.1

sockets_of_sound :
    (u : ℕ) (users : List (ℕ × ℕ)) (table : List (ℕ × List ℕ))
    → SocketsSound users table
    → All (Owns users u) (get_or_else (sockets_of u table) [])
unfolding sockets_of
sockets_of_sound u users [] h = tt
sockets_of_sound u users ((x, s) ∷ table) (own, h) = elim (Bool-cases (x == u)) [
  | inl same ↦ let here : x ≡ u = (==_iff x u).0 same in rw same (rw here at own)
  | inr other ↦ rw other (sockets_of_sound u users table h)
]

pub register_sound :
    (u socket : ℕ) (users : List (ℕ × ℕ)) (r : Registry)
    → Owns users u socket
    → SocketsSound users r.sockets_by_user_id
    → SocketsSound users (register_user_socket u socket r).sockets_by_user_id
unfolding register_user_socket set_sockets add forget
register_sound u socket users r owner h =
    let own = sockets_of_sound u users r.sockets_by_user_id h in
    let rest =
      All-delete_where (λ (e : ℕ × List ℕ). e.0 == u) (OwnsAll users) r.sockets_by_user_id h in
    elim (Bool-cases (has socket (get_or_else (sockets_of u r.sockets_by_user_id) []))) [
      | inl there ↦ rw there (own, rest)
      | inr new ↦ rw new ((owner, own), rest)
    ]

-- Without a socket, the others keep their users.
module _ (socket : ℕ) (users : List (ℕ × ℕ)) where
  abbrev rest_of : List (ℕ × ℕ)
  rest_of = delete_where (λ (x : ℕ × ℕ). x.0 == socket) users

  user_of-disconnected : (s : ℕ) → (s == socket) ≡ false → user_of s rest_of ≡ user_of s users
  unfolding user_of delete_where
  user_of-disconnected s other = go users
    where
      go :
          (xs : List (ℕ × ℕ))
          → user_of s (delete_where (λ (x : ℕ × ℕ). x.0 == socket) xs) ≡ user_of s xs
      go [] = refl
      go ((x, u) ∷ xs) = ground (arith, other, go xs)

  pub RoomsSound-disconnected :
      (rows : List Conversation) (joins : List (ℕ × ℕ))
      → RoomsSound users rows joins
      → RoomsSound rest_of rows (delete_where (λ (j : ℕ × ℕ). j.1 == socket) joins)
  RoomsSound-disconnected rows joins h =
      All-delete_where_if (λ (j : ℕ × ℕ). j.1 == socket) (Admits users rows) (Admits rest_of rows)
        (λ j other side. rw (user_of-disconnected j.1 other) side) joins h

  -- a set of another user's has not the socket
  others-owned :
      (v : ℕ) (s : List ℕ)
      → ((x : ℕ) → Owns users v x → (x == socket) ≡ false)
      → All (Owns users v) s
      → All (Owns rest_of v) s
  others-owned v s apart own =
      All-map (Owns users v) (Owns rest_of v)
        (λ x owner. rw (user_of-disconnected x (apart x owner)) owner) s own

  removed-owned :
      (v : ℕ) (s : List ℕ) → All (Owns users v) s → All (Owns rest_of v) (remove socket s)
  unfolding remove
  removed-owned v s own =
      All-delete_where_if (λ y. y == socket) (Owns users v) (Owns rest_of v)
        (λ x other owner. rw (user_of-disconnected x other) owner) s own

  -- the socket belongs to nobody but `u`
  not_owned :
      (u v : ℕ)
      → Owns users u socket
      → (v == u) ≡ false
      → (x : ℕ) → Owns users v x
      → (x == socket) ≡ false
  not_owned u v owner other x own = elim (Bool-cases (x == socket)) [
    | inl same ↦
        let here : x ≡ socket = (==_iff x socket).0 same in
        absurd (ground (arith, owner, other, rw here at own))
    | inr apart ↦ apart
  ]

  forgotten_sound :
      (u : ℕ) (table : List (ℕ × List ℕ))
      → Owns users u socket
      → SocketsSound users table
      → SocketsSound rest_of (forget u table)
  unfolding forget
  forgotten_sound u table owner h =
      All-delete_where_if (λ (e : ℕ × List ℕ). e.0 == u) (OwnsAll users) (OwnsAll rest_of)
        (λ e other own. others-owned e.0 e.1 (not_owned u e.0 owner other) own) table h

  absent_sound :
      (u : ℕ) (table : List (ℕ × List ℕ))
      → Owns users u socket
      → sockets_of u table ≡ none
      → SocketsSound users table
      → SocketsSound rest_of table
  unfolding sockets_of
  absent_sound u [] owner missing h = tt
  absent_sound u ((v, s) ∷ table) owner missing (own, h) = elim (Bool-cases (v == u)) [
    | inl same ↦ absurd (ground (arith, missing, same))
    | inr other ↦ (
      others-owned v s (not_owned u v owner other) own,
      absent_sound u table owner (rw other at missing) h,
    )
  ]

  kept_sound :
      (u : ℕ) (s : List ℕ) (table : List (ℕ × List ℕ))
      → All (Owns rest_of u) s
      → SocketsSound rest_of (forget u table)
      → SocketsSound rest_of (keep_or_forget u s table)
  unfolding keep_or_forget set_sockets
  kept_sound u [] table own h = h
  kept_sound u (x ∷ s) table own h = (own, h)

  unregistered_sound :
      (u : ℕ) (r : Registry)
      → Owns users u socket
      → SocketsSound users r.sockets_by_user_id
      → SocketsSound rest_of (unregister_user_socket u socket r).sockets_by_user_id
  unfolding unregister_user_socket unregister_from
  unregistered_sound u r owner h = elim (Option-cases (sockets_of u r.sockets_by_user_id)) [
    | inl missing ↦ rw missing (absent_sound u r.sockets_by_user_id owner missing h)
    | inr (s, found) ↦
        let own = rw found at (sockets_of_sound u users r.sockets_by_user_id h) in
        rw found (
          kept_sound u (remove socket s) r.sockets_by_user_id (removed-owned u s own)
            (forgotten_sound u r.sockets_by_user_id owner h))
  ]

  pub unregister_sound :
      (r : Registry)
      → SocketsSound users r.sockets_by_user_id
      → SocketsSound rest_of (unregister (user_of socket users) socket r).sockets_by_user_id
  unregister_sound r h = elim (Option-cases (user_of socket users)) [
    | inl nobody ↦ rw nobody (
        All-map (OwnsAll users) (OwnsAll rest_of)
          (λ e own.
            others-owned e.0 e.1
              (λ x owner. elim (Bool-cases (x == socket)) [
                | inl same ↦
                    let here : x ≡ socket = (==_iff x socket).0 same in
                    absurd (ground (arith, nobody, rw here at owner))
                | inr apart ↦ apart
              ])
              own)
          r.sockets_by_user_id h)
    | inr (u, owner) ↦ rw owner (unregistered_sound u r owner h)
  ]

-- The sockets that a new conversation brings into its room.
module _ (users : List (ℕ × ℕ)) (rows : List Conversation) (room : ℕ) where
  abbrev IsSide : ℕ → Type 0
  IsSide u = is_one_of (some u) (sides_at room rows) ≡ true

  join_all_sound :
      (u : ℕ) (s : List ℕ) (joins : List (ℕ × ℕ))
      → IsSide u
      → All (Owns users u) s
      → RoomsSound users rows joins
      → RoomsSound users rows (join_all room s joins)
  unfolding join_all
  join_all_sound u [] joins side own h = h
  join_all_sound u (x ∷ s) joins side (owner, own) h =
      join_all_sound u s ((room, x) ∷ joins) side own (rw owner side, h)

  join_users_sound :
      (us : List ℕ) (table : List (ℕ × List ℕ)) (joins : List (ℕ × ℕ))
      → All IsSide us
      → SocketsSound users table
      → RoomsSound users rows joins
      → RoomsSound users rows (join_users room us table joins)
  unfolding join_users
  join_users_sound [] table joins sides own h = h
  join_users_sound (u ∷ us) table joins (side, sides) own h =
      join_users_sound us table (join_all room (get_or_else (sockets_of u table) []) joins) sides
        own
        (join_all_sound u (get_or_else (sockets_of u table) []) joins side
          (sockets_of_sound u users table own) h)

  All-add : (u : ℕ) (us : List ℕ) → IsSide u → All IsSide us → All IsSide (add u us)
  unfolding add
  All-add u us side sides = elim (Bool-cases (has u us)) [
    | inl there ↦ rw there sides
    | inr new ↦ rw new (side, sides)
  ]

  unique_ids-sides :
      (n : ℕ) (vs : List JsValue)
      → IsSide n
      → All IsSide (unique_ids vs)
      → All IsSide (unique_ids (JsValue.number n ∷ vs))
  unfolding unique_ids to_positive_int
  unique_ids-sides n vs side sides = elim (Bool-cases (n == 0)) [
    | inl none_given ↦ rw none_given sides
    | inr given ↦ rw given (All-add n (unique_ids vs) side sides)
  ]

  pub participants-join :
      (a b : ℕ) (table : List (ℕ × List ℕ)) (joins : List (ℕ × ℕ))
      → IsSide a
      → IsSide b
      → SocketsSound users table
      → RoomsSound users rows joins
      → RoomsSound users rows
          (join_users room (unique_ids (JsValue.number a ∷ JsValue.number b ∷ [])) table joins)
  unfolding unique_ids
  participants-join a b table joins side_a side_b own h =
      join_users_sound (unique_ids (JsValue.number a ∷ JsValue.number b ∷ [])) table joins
        (unique_ids-sides a (JsValue.number b ∷ []) side_a (unique_ids-sides b [] side_b tt)) own h
