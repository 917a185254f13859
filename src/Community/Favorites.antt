-- ===== src/Community/Favorites.antt =====
-- `listFavorites` of src/favorites/favorites.service.ts. The latest favorite comes first in the table;
-- the rate of the seller is left out of the rows.
use market_place.Base.{
  ℕ, ◌≡◌, Bool, true, Option, none, some, List, [], ◌∷◌, ◌++◌, ◌==◌, not, find?, find_all, map,
  get_or_else, All, All-find_all, All-order_desc, All-order_asc, All-take, All-drop, take, drop,
  order_asc, order_desc,
}
use market_place.Store.{Action, Db, gets, Product, Favorite, UserBlock}
use market_place.Chat.Guards.{has_block_between_users}
use market_place.Products.Catalog.{ProductView, images_of, live_product}

data SortBy : Type 0 where
  price created : SortBy

data SortDir : Type 0 where
  asc desc : SortDir

record ListFavoritesDto : Type 0 where
  sort_by : Option SortBy
  sort_dir : Option SortDir
  limit : Option ℕ
  offset : Option ℕ

-- JOIN product_listing_view plv ON plv.id = uf.product_id
abbrev with_listed : Option Product → List Product → List Product
with_listed none rest = rest
with_listed (some p) rest = p ∷ rest

unfoldable join_products : List Product → List Favorite → List Product
join_products products [] = []
join_products products (f ∷ fs) =
    with_listed (find? (live_product f.product_id) products) (join_products products fs)

unfoldable oldest_first : List Product → List Product
oldest_first [] = []
oldest_first (p ∷ ps) = oldest_first ps ++ (p ∷ [])

-- ORDER BY … , plv.id DESC
abbrev sorted : SortBy → SortDir → List Product → List Product
sorted price asc ps = order_asc (λ (p : Product). p.price) (order_desc (λ (p : Product). p.id) ps)
sorted price desc ps = order_desc (λ (p : Product). p.price) (order_desc (λ (p : Product). p.id) ps)
sorted created asc ps = oldest_first ps
sorted created desc ps = ps

abbrev unblocked : ℕ → List UserBlock → Product → Bool
unblocked user_id rows p = not (has_block_between_users user_id p.owner_id rows)

-- the rows of the page
abbrev favorite_products : ℕ → ListFavoritesDto → Db → List Product
favorite_products user_id dto d = take (get_or_else dto.limit 20) (
    drop (get_or_else dto.offset 0) (
      sorted (get_or_else dto.sort_by created) (get_or_else dto.sort_dir desc) (
        find_all (unblocked user_id d.blocks) (
          join_products d.products
            (find_all (λ (f : Favorite). f.user_id == user_id) d.favorites)))))

unfoldable list_favorites : ℕ → ListFavoritesDto → Action (List ProductView)
list_favorites user_id dto = gets (λ w.
    map (λ p. record { row = p; is_favorite = some true; images = images_of p.id w.db })
      (favorite_products user_id dto w.db))

module _ {κ} (P : Product → Type κ) where
  All-append : (ps : List Product) (p : Product) → All P ps → P p → All P (ps ++ (p ∷ []))
  All-append [] p h px = (px, tt)
  All-append (q ∷ ps) p (qx, h) px = (qx, All-append ps p h px)

  All-oldest_first : (ps : List Product) → All P ps → All P (oldest_first ps)
  unfolding oldest_first
  All-oldest_first [] h = tt
  All-oldest_first (p ∷ ps) (px, h) = All-append (oldest_first ps) p (All-oldest_first ps h) px

  All-sorted :
      (sort_by : SortBy) (sort_dir : SortDir) (ps : List Product)
      → All P ps
      → All P (sorted sort_by sort_dir ps)
  All-sorted price asc ps h =
      All-order_asc P (λ (p : Product). p.price) (order_desc (λ (p : Product). p.id) ps)
        (All-order_desc P (λ (p : Product). p.id) ps h)
  All-sorted price desc ps h =
      All-order_desc P (λ (p : Product). p.price) (order_desc (λ (p : Product). p.id) ps)
        (All-order_desc P (λ (p : Product). p.id) ps h)
  All-sorted created asc ps h = All-oldest_first ps h
  All-sorted created desc ps h = h

-- No product of a list of favorites is of an owner whom a block separates from the user.
favorite_products-unblocked :
    (user_id : ℕ) (dto : ListFavoritesDto) (d : Db)
    → All (λ (p : Product). unblocked user_id d.blocks p ≡ true) (favorite_products user_id dto d)
favorite_products-unblocked user_id dto d =
    let P = λ (p : Product). unblocked user_id d.blocks p ≡ true in
    let mine = find_all (λ (f : Favorite). f.user_id == user_id) d.favorites in
    let shown = find_all (unblocked user_id d.blocks) (join_products d.products mine) in
    let by = get_or_else dto.sort_by created in
    let dir = get_or_else dto.sort_dir desc in
    let start = get_or_else dto.offset 0 in
    All-take P (get_or_else dto.limit 20) (drop start (sorted by dir shown)) (
      All-drop P start (sorted by dir shown) (
        All-sorted P by dir shown
          (All-find_all P (unblocked user_id d.blocks) (join_products d.products mine) (λ p h. h))))
