-- ===== src/Chat/Registry.antt =====
-- The sockets of the connected users, src/chat/chat-socket-registry.service.ts. A socket is known by
-- its id; `joins` are the rooms that the sockets were put into, the latest first.
pub mod Presence
use market_place.Base.{
  ℕ, Bool, true, false, Option, none, some, List, [], ◌∷◌, ◌==◌, ◌&&◌, not, any, delete_where,
  if◌then◌else◌, length, get_or_else,
}
use market_place.Base.JsValue.{JsValue, to_positive_int}

-- socketsByUserId, the room memberships (conversation, socket) and the rooms that got
-- `conversation.joined`
pub record Registry : Type 0 where
  pub has_server : Bool
  pub sockets_by_user_id : List (ℕ × List ℕ)
  pub joins : List (ℕ × ℕ)
  pub emitted : List ℕ

-- Map.get
unfoldable pub sockets_of : ℕ → List (ℕ × List ℕ) → Option (List ℕ)
sockets_of user_id [] = none
sockets_of user_id ((u, s) ∷ rest) = if u == user_id then some s else sockets_of user_id rest

-- Map.delete
unfoldable pub forget : ℕ → List (ℕ × List ℕ) → List (ℕ × List ℕ)
forget user_id table = delete_where (λ (e : ℕ × List ℕ). e.0 == user_id) table

-- Map.set
unfoldable pub set_sockets : ℕ → List ℕ → List (ℕ × List ℕ) → List (ℕ × List ℕ)
set_sockets user_id s table = (user_id, s) ∷ forget user_id table

-- Set.has, Set.add and Set.delete
unfoldable pub has : ℕ → List ℕ → Bool
has x s = any (λ y. y == x) s

unfoldable pub add : ℕ → List ℕ → List ℕ
add x s = if has x s then s else x ∷ s

unfoldable pub remove : ℕ → List ℕ → List ℕ
remove x s = delete_where (λ y. y == x) s

unfoldable pub set_server : Registry → Registry
set_server r = record r { has_server = true }

unfoldable pub register_user_socket : ℕ → ℕ → Registry → Registry
register_user_socket user_id socket r =
    let sockets = get_or_else (sockets_of user_id r.sockets_by_user_id) [] in
    record r { sockets_by_user_id = set_sockets user_id (add socket sockets) r.sockets_by_user_id }

-- the table after the socket left the set of the user
unfoldable pub keep_or_forget : ℕ → List ℕ → List (ℕ × List ℕ) → List (ℕ × List ℕ)
keep_or_forget user_id [] table = forget user_id table
keep_or_forget user_id (x ∷ s) table = set_sockets user_id (x ∷ s) table

unfoldable pub unregister_from : Option (List ℕ) → ℕ → ℕ → Registry → Registry
unregister_from none user_id socket r = r
unregister_from (some s) user_id socket r = record r {
  sockets_by_user_id = keep_or_forget user_id (remove socket s) r.sockets_by_user_id;
}

unfoldable pub unregister_user_socket : ℕ → ℕ → Registry → Registry
unregister_user_socket user_id socket r =
    unregister_from (sockets_of user_id r.sockets_by_user_id) user_id socket r

-- the ids that are positive integers, each once
unfoldable pub unique_ids : List JsValue → List ℕ
unfolding add
unique_ids [] = []
unique_ids (v ∷ vs) = with_id (to_positive_int v) (unique_ids vs)
  where
    with_id : Option ℕ → List ℕ → List ℕ
    with_id none ids = ids
    with_id (some id) ids = add id ids

-- every socket of the set joins the room
unfoldable pub join_all : ℕ → List ℕ → List (ℕ × ℕ) → List (ℕ × ℕ)
join_all room [] joins = joins
join_all room (s ∷ rest) joins = join_all room rest ((room, s) ∷ joins)

unfoldable pub join_users : ℕ → List ℕ → List (ℕ × List ℕ) → List (ℕ × ℕ) → List (ℕ × ℕ)
join_users room [] table joins = joins
join_users room (u ∷ users) table joins =
    join_users room users table (join_all room (get_or_else (sockets_of u table) []) joins)

unfoldable pub emit_conversation_joined : ℕ → List JsValue → Registry → Registry
emit_conversation_joined conversation_id participants r =
    if r.has_server
    then record r {
      joins = join_users conversation_id (unique_ids participants) r.sockets_by_user_id r.joins;
      emitted = conversation_id ∷ r.emitted;
    }
    else r
