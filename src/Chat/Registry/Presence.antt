-- ===== src/Chat/Registry/Presence.antt =====
-- Who is connected, after sockets come and go.
use market_place.Base.{
  ℕ, ◌≡◌, refl, Bool, true, false, none, some, List, [], ◌∷◌, ◌==◌, ==_self, arith, any,
  delete_where, any-delete_where, Bool-cases, Option-cases, inl, inr, if◌then◌else◌, get_or_else,
}
use market_place.Chat.Registry.{
  Registry, sockets_of, forget, set_sockets, has, add, remove, register_user_socket,
  unregister_user_socket, unregister_from, keep_or_forget,
}

-- the socket is one of the user's
abbrev pub is_registered : ℕ → ℕ → Registry → Bool
is_registered user_id socket r =
    has socket (get_or_else (sockets_of user_id r.sockets_by_user_id) [])

sockets_of-forget :
    (u v : ℕ) (table : List (ℕ × List ℕ))
    → sockets_of v (forget u table) ≡ (if u == v then none else sockets_of v table)
unfolding sockets_of forget delete_where
sockets_of-forget u v [] = ground arith
sockets_of-forget u v ((x, s) ∷ table) = ground (arith, sockets_of-forget u v table)

sockets_of-set :
    (u v : ℕ) (s : List ℕ) (table : List (ℕ × List ℕ))
    → sockets_of v (set_sockets u s table) ≡ (if u == v then some s else sockets_of v table)
unfolding set_sockets
sockets_of-set u v s table = elim (Bool-cases (u == v)) [
  | inl e ↦ unfold sockets_of in rw e refl
  | inr e ↦ unfold sockets_of in rw (e, sockets_of-forget u v table, e) refl
]

has-add : (x : ℕ) (s : List ℕ) → has x (add x s) ≡ true
unfolding add
has-add x s = elim (Bool-cases (has x s)) [
  | inl e ↦ rw (e, e) refl
  | inr e ↦ rw e (unfold has any in rw (==_self x) refl)
]

has-remove : (x : ℕ) (s : List ℕ) → has x (remove x s) ≡ false
unfolding has remove
has-remove x s = any-delete_where (λ y. y == x) s

has-remove_ne : (x y : ℕ) (s : List ℕ) → (x == y) ≡ false → has y (remove x s) ≡ has y s
unfolding has remove any delete_where
has-remove_ne x y [] other = refl
has-remove_ne x y (z ∷ s) other = ground (arith, has-remove_ne x y s other)

-- what a user's set is once a socket was taken out of it
sockets_of-keep :
    (u v : ℕ) (s : List ℕ) (table : List (ℕ × List ℕ))
    → get_or_else (sockets_of v (keep_or_forget u s table)) []
      ≡ (if u == v then s else get_or_else (sockets_of v table) [])
unfolding keep_or_forget
sockets_of-keep u v [] table = elim (Bool-cases (u == v)) [
  | inl e ↦ rw (sockets_of-forget u v table, e) refl
  | inr e ↦ rw (sockets_of-forget u v table, e) refl
]
sockets_of-keep u v (x ∷ s) table = elim (Bool-cases (u == v)) [
  | inl e ↦ rw (sockets_of-set u v (x ∷ s) table, e) refl
  | inr e ↦ rw (sockets_of-set u v (x ∷ s) table, e) refl
]

has_none : (x : ℕ) → has x [] ≡ false
unfolding has any
has_none x = refl

-- Registering a socket makes it one of the user's; unregistering it takes it away, and every socket
-- of another user, and every other socket of the same user, stays as it was.
unregister_user_socket-only :
    (u v x y : ℕ) (r : Registry)
    → (is_registered u x (register_user_socket u x r) ≡ true)
      × (is_registered u x (unregister_user_socket u x r) ≡ false)
      × ((x == y) ≡ false → is_registered u y (unregister_user_socket u x r) ≡ is_registered u y r)
      × ((u == v) ≡ false → is_registered v y (unregister_user_socket u x r) ≡ is_registered v y r)
unfolding register_user_socket unregister_user_socket unregister_from
unregister_user_socket-only u v x y r = elim (Option-cases (sockets_of u r.sockets_by_user_id)) [
  | inl away ↦ (
    rw
        (
          sockets_of-set u u (add x (get_or_else (sockets_of u r.sockets_by_user_id) []))
              r.sockets_by_user_id,
          ==_self u,
        )
        (has-add x (get_or_else (sockets_of u r.sockets_by_user_id) [])),
    rw (away, away) (has_none x),
    λ other. rw (away, away) refl,
    λ other. rw away refl,
  )
  | inr (s, there) ↦ (
    rw
        (
          sockets_of-set u u (add x (get_or_else (sockets_of u r.sockets_by_user_id) []))
              r.sockets_by_user_id,
          ==_self u,
        )
        (has-add x (get_or_else (sockets_of u r.sockets_by_user_id) [])),
    rw (there, sockets_of-keep u u (remove x s) r.sockets_by_user_id, ==_self u) (has-remove x s),
    λ other.
        rw (there, sockets_of-keep u u (remove x s) r.sockets_by_user_id, ==_self u)
          (has-remove_ne x y s other),
    λ other. rw (there, sockets_of-keep u v (remove x s) r.sockets_by_user_id, other) refl,
  )
]
