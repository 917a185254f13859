-- ===== src/Products/Catalog/Ownership.antt =====
-- Who may change a product, and what a refused or a failed change leaves.
use market_place.Base.{
  ℕ, ◌<◌, ◌≡◌, ◌≢◌, refl, true, false, Option, none, some, List, [], ◌∷◌, ◌==◌, arith, find?,
  update_where,
}
use market_place.Store.{
  World, Error, ok, err, http, forbidden, not_found, Product, ProductStatus, rollback-db,
}
use market_place.Chat.Guards.{Driver}
use market_place.Products.Catalog.{
  live_product, product_id_is, assert_owner, update_product, delete_product, update_product_status,
  get_product_by_id, fetch_product_with_images, UpdateProductDto,
}

assert_owner-refuses :
    (driver : Driver) (user_id product_id : ℕ) (w : World) (p : Product)
    → find? (live_product product_id) w.db.products ≡ some p
    → 0 < p.owner_id
    → p.owner_id ≢ user_id
    → assert_owner driver user_id product_id w ≡ (err (http forbidden "Not allowed"), w)
unfolding assert_owner
assert_owner-refuses driver user_id product_id w p found positive other =
    let differ : (p.owner_id == user_id) ≡ false = ground arith in
    rw (found, driver.int8_reads p.owner_id positive, differ) refl

-- Whoever does not own a product (its owner's id being positive) can neither update nor delete it
-- nor set its status: each call is refused with "Not allowed", and nothing has changed.
pub not_owner-refused :
    (driver : Driver) (user_id product_id : ℕ) (dto : UpdateProductDto) (status : ProductStatus)
    (w : World) (p : Product)
    → find? (live_product product_id) w.db.products ≡ some p
    → 0 < p.owner_id
    → p.owner_id ≢ user_id
    → (update_product driver user_id product_id dto w ≡ (err (http forbidden "Not allowed"), w))
      × (delete_product driver user_id product_id w ≡ (err (http forbidden "Not allowed"), w))
      × (update_product_status driver user_id product_id status w
          ≡ (err (http forbidden "Not allowed"), w))
unfolding update_product delete_product update_product_status
not_owner-refused driver user_id product_id dto status w p found positive other =
    let refused = assert_owner-refuses driver user_id product_id w p found positive other in
    (rw refused refl, rw refused refl, rw refused refl)

-- An update that fails at any step, also after the old images were taken away, leaves every table
-- as it was.
update_product-atomic :
    (driver : Driver) (user_id product_id : ℕ) (dto : UpdateProductDto) (w : World) {e : Error}
    → (update_product driver user_id product_id dto w).0 ≡ err e
    → (update_product driver user_id product_id dto w).1.db ≡ w.db
unfolding update_product
update_product-atomic driver user_id product_id dto w {e} h = rollback-db w.db _ {e = e} h

find?-live-deleted :
    (product_id now : ℕ) (products : List Product)
    → find?
        (live_product product_id)
        (update_where (product_id_is product_id) (λ p. record p { deleted_at = some now }) products)
      ≡ none
unfolding find? update_where
find?-live-deleted product_id now [] = refl
find?-live-deleted product_id now (p ∷ products) =
    ground (arith, find?-live-deleted product_id now products)

assert_owner-frame :
    (driver : Driver) (user_id product_id : ℕ) (w : World)
    → (assert_owner driver user_id product_id w).1 ≡ w
unfolding assert_owner
assert_owner-frame driver user_id product_id w = ground arith

-- After a product was deleted nobody passes the tests that a change begins with.
assert_owner-none :
    (driver : Driver) (user_id product_id : ℕ) (w : World)
    → find? (live_product product_id) w.db.products ≡ none
    → assert_owner driver user_id product_id w ≡ (err (http not_found "Product not found"), w)
unfolding assert_owner
assert_owner-none driver user_id product_id w gone = rw gone refl

-- What every call about a product answers that is not there.
abbrev pub IsNotFound : Driver → ℕ → World → Type 0
IsNotFound driver product_id w =
    ((viewer : Option ℕ)
      → (get_product_by_id product_id viewer w).0 ≡ err (http not_found "Product not found"))
    × ((user_id : ℕ) (dto : UpdateProductDto)
        → update_product driver user_id product_id dto w
          ≡ (err (http not_found "Product not found"), w))
    × ((user_id : ℕ)
        → delete_product driver user_id product_id w
          ≡ (err (http not_found "Product not found"), w))
    × ((user_id : ℕ) (status : ProductStatus)
        → update_product_status driver user_id product_id status w
          ≡ (err (http not_found "Product not found"), w))

none-IsNotFound :
    (driver : Driver) (product_id : ℕ) (w : World)
    → find? (live_product product_id) w.db.products ≡ none
    → IsNotFound driver product_id w
unfolding update_product delete_product update_product_status get_product_by_id
    fetch_product_with_images
none-IsNotFound driver product_id w gone = (
  λ viewer. rw gone refl,
  λ user_id dto. rw (assert_owner-none driver user_id product_id w gone) refl,
  λ user_id. rw (assert_owner-none driver user_id product_id w gone) refl,
  λ user_id status. rw (assert_owner-none driver user_id product_id w gone) refl,
)

-- The owner deletes a product that is not deleted yet: the call succeeds; afterwards nobody, with
-- or without an account, can read the product, and an update, another delete and a change of its
-- status fail with "Product not found", whoever asks, and change nothing.
pub delete_product-gone :
    (driver : Driver) (user_id product_id : ℕ) (w : World) (p : Product)
    → find? (live_product product_id) w.db.products ≡ some p
    → 0 < p.owner_id
    → p.owner_id ≡ user_id
    → ((delete_product driver user_id product_id w).0 ≡ ok tt)
      × IsNotFound driver product_id (delete_product driver user_id product_id w).1
unfolding delete_product assert_owner
delete_product-gone driver user_id product_id w p found positive own =
    let same : (p.owner_id == user_id) ≡ true = ground arith in
    let after : World = record w {
      db = record w.db {
        products =
            update_where (product_id_is product_id) (λ p. record p { deleted_at = some w.now })
              w.db.products;
      };
    } in
    let gone = find?-live-deleted product_id w.now w.db.products in
    rw (found, driver.int8_reads p.owner_id positive, same)
      (refl, none-IsNotFound driver product_id after gone)
