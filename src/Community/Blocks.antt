-- ===== src/Community/Blocks.antt =====
-- src/blocks/blocks.service.ts and src/favorites/favorites.service.ts.
pub mod Barrier
use market_place.Base.{
  ℕ, ◌+◌, String, Bool, true, false, Option, none, some, List, [], ◌∷◌, ◌==◌, ◌&&◌, ◌||◌, not,
  find?, find_all, any, delete_where, if◌then◌else◌, is_some, take, drop,
}
use market_place.Store.{
  World, Db, Action, http, bad_request, not_found, pg, foreign_key_violation, pure, throw_if,
  or_throw, query, gets, ◌>>=◌, ◌>>◌, User, UserBlock, Favorite, Product,
}
use market_place.Chat.Guards.{is_account, has_block_between_users}
use market_place.Products.Catalog.{live_product}

abbrev pub block_is : ℕ → ℕ → UserBlock → Bool
block_is blocker blocked r = r.blocker_id == blocker && r.blocked_id == blocked

-- INSERT … ON CONFLICT (blocker_id, blocked_id) DO NOTHING, under the foreign keys
unfoldable pub insert_block : ℕ → ℕ → Action (Unit {0})
insert_block blocker blocked = do
  known ← gets (λ w.
      any (λ (u : User). u.id == blocker) w.db.users
      && any (λ (u : User). u.id == blocked) w.db.users)
  throw_if (not known) (pg foreign_key_violation)
  query (λ d. record d {
    blocks =
        if any (block_is blocker blocked) d.blocks
        then d.blocks
        else record { blocker_id = blocker; blocked_id = blocked } ∷ d.blocks;
  })

unfoldable pub block_user : ℕ → ℕ → Action (Unit {0})
block_user user_id blocked_user_id = do
  throw_if (user_id == blocked_user_id) (http bad_request "You cannot block yourself")
  known ← gets (λ w. is_account blocked_user_id w.db.users)
  throw_if (not known) (http not_found "User not found")
  insert_block user_id blocked_user_id

unfoldable pub unblock_user : ℕ → ℕ → Action (Unit {0})
unblock_user user_id blocked_user_id =
    query (λ d. record d { blocks = delete_where (block_is user_id blocked_user_id) d.blocks })

-- the JOIN with the accounts that are not deleted; the rows are kept latest first
abbrev with_account : Option User → List User → List User
with_account none rest = rest
with_account (some u) rest = u ∷ rest

unfoldable pub blocked_accounts : ℕ → List UserBlock → List User → List User
blocked_accounts user_id [] users = []
blocked_accounts user_id (r ∷ rows) users =
    let rest = blocked_accounts user_id rows users in
    if r.blocker_id == user_id
    then with_account
        (find? (λ (u : User). u.id == r.blocked_id && not (is_some u.deleted_at)) users) rest
    else rest

unfoldable pub list_blocked_users : ℕ → ℕ → ℕ → Action (List User)
list_blocked_users user_id limit offset =
    gets (λ w. take limit (drop offset (blocked_accounts user_id w.db.blocks w.db.users)))

abbrev pub favorite_is : ℕ → ℕ → Favorite → Bool
favorite_is user_id product_id f = f.user_id == user_id && f.product_id == product_id

unfoldable pub add_favorite : ℕ → ℕ → Action (Unit {0})
add_favorite user_id product_id = do
  found ← gets (λ w. find? (live_product product_id) w.db.products)
  p ← or_throw found (http not_found "Product not found")
  blocked ← gets (λ w. has_block_between_users user_id p.owner_id w.db.blocks)
  throw_if blocked (http bad_request "Cannot favorite this product")
  user ← gets (λ w. any (λ (u : User). u.id == user_id) w.db.users)
  throw_if (not user) (pg foreign_key_violation)
  query (λ d. record d {
    favorites =
        if any (favorite_is user_id product_id) d.favorites
        then d.favorites
        else record { user_id = user_id; product_id = product_id } ∷ d.favorites;
  })

unfoldable pub remove_favorite : ℕ → ℕ → Action (Unit {0})
remove_favorite user_id product_id =
    query (λ d. record d { favorites = delete_where (favorite_is user_id product_id) d.favorites })
