-- ===== src/Products/Catalog.antt =====
-- The owner's operations of src/products/products.service.ts: create, read, update, delete, status.
pub mod Ownership
use market_place.Base.{
  ℕ, ◌+◌, ◌<◌, String, Bool, true, false, Option, none, some, List, [], ◌∷◌, ◌==◌, not, ◌&&◌, find?,
  find_all, update_where, delete_where, any, if◌then◌else◌, is_id, is_some, get_or_else, or_else,
  order_asc,
}
use market_place.Base.JsValue.{JsValue, to_positive_int}
use market_place.Store.{
  World, Db, Action, http, bad_request, forbidden, not_found, pg, check_violation,
  foreign_key_violation, pure, throw_if, or_throw, query, gets, fresh_id, with_transaction, ◌>>=◌,
  ◌>>◌, User, File, FileStatus, Product, ProductStatus, available, ProductImage, Favorite,
}
use market_place.Chat.Guards.{Driver, has_block_between_users}
use market_place.Base.Text.{trim}
use market_place.Products.Pairs.{assert_category_pair, is_storable}
use market_place.Products.Images.{sync_product_images}

pub record CreateProductDto : Type 0 where
  pub category : String
  pub subcategory : Option String
  pub name : String
  pub description : String
  pub price : ℕ
  pub city : String
  pub address_text : String
  pub details : Option String
  pub image_file_ids : Option (List ℕ)
  pub is_negotiable : Option Bool
  pub preferred_contact_method : Option String

-- the fields that the request has; `subcategory` may be there as null
pub record UpdateProductDto : Type 0 where
  pub category : Option String
  pub subcategory : Option (Option String)
  pub name : Option String
  pub description : Option String
  pub price : Option ℕ
  pub city : Option String
  pub address_text : Option String
  pub details : Option String
  pub image_file_ids : Option (List ℕ)
  pub is_negotiable : Option Bool
  pub preferred_contact_method : Option String

pub record ImageView : Type 0 where
  pub file_id : ℕ
  pub sort_order : ℕ
  pub object_key : String
  pub status : FileStatus

pub record ProductView : Type 0 where
  pub row : Product
  pub is_favorite : Option Bool
  pub images : List ImageView

-- a product that is not deleted
abbrev pub live_product : ℕ → Product → Bool
live_product id p = p.id == id && not (is_some p.deleted_at)

abbrev pub product_id_is : ℕ → Product → Bool
product_id_is id p = p.id == id

abbrev with_file : ProductImage → Option File → List ImageView → List ImageView
with_file i none rest = rest
with_file i (some f) rest =
    record {
      file_id = i.file_id;
      sort_order = i.sort_order;
      object_key = f.object_key;
      status = f.status;
    }
    ∷ rest

-- JOIN files f ON f.id = pi.file_id
unfoldable pub join_files : List File → List ProductImage → List ImageView
join_files files [] = []
join_files files (i ∷ is) =
    with_file i (find? (λ (f : File). f.id == i.file_id) files) (join_files files is)

abbrev pub images_of : ℕ → Db → List ImageView
images_of product_id d = join_files d.files (
    order_asc (λ (i : ProductImage). i.sort_order)
      (find_all (λ (i : ProductImage). i.product_id == product_id) d.product_images))

-- null without a viewer, also for the id 0
abbrev pub favorite_of : Option ℕ → ℕ → Db → Option Bool
favorite_of none product_id d = none
favorite_of (some viewer) product_id d =
    if viewer == 0
    then none
    else some
        (any (λ (f : Favorite). f.user_id == viewer && f.product_id == product_id) d.favorites)

abbrev pub view_of : Option ℕ → Db → Option Product → Option ProductView
view_of viewer d none = none
view_of viewer d (some p) =
    some (record { row = p; is_favorite = favorite_of viewer p.id d; images = images_of p.id d })

unfoldable pub fetch_product_with_images : ℕ → Option ℕ → Action (Option ProductView)
fetch_product_with_images product_id viewer =
    gets (λ w. view_of viewer w.db (find? (live_product product_id) w.db.products))

-- a viewer that is there is blocked by, or blocks, the owner
abbrev hidden_from : Option ℕ → ℕ → Db → Bool
hidden_from none owner_id d = false
hidden_from (some viewer) owner_id d =
    if viewer == 0 then false else has_block_between_users viewer owner_id d.blocks

unfoldable pub get_product_by_id : ℕ → Option ℕ → Action ProductView
get_product_by_id product_id viewer = do
  found ← fetch_product_with_images product_id viewer
  view ← or_throw found (http not_found "Product not found")
  hidden ← gets (λ w. hidden_from viewer view.row.owner_id w.db)
  throw_if hidden (http not_found "Product not found")
  pure view

abbrev pub trimmed : Option String → Option String
trimmed none = none
trimmed (some s) = some (trim s)

-- INSERT INTO products, under the checks and the foreign key of the table
unfoldable pub insert_product : ℕ → CreateProductDto → Action ℕ
insert_product owner_id dto = do
  id ← fresh_id
  throw_if (not (is_storable (trim dto.category) (trimmed dto.subcategory))) (pg check_violation)
  owner ← gets (λ w. any (λ (u : User). u.id == owner_id) w.db.users)
  throw_if (not owner) (pg foreign_key_violation)
  let row : Product = record {
    id = id;
    owner_id = owner_id;
    category = trim dto.category;
    subcategory = trimmed dto.subcategory;
    name = dto.name;
    description = dto.description;
    price = dto.price;
    city = dto.city;
    address_text = dto.address_text;
    details = dto.details;
    status = available;
    is_negotiable = get_or_else dto.is_negotiable false;
    preferred_contact_method = get_or_else dto.preferred_contact_method "both";
    deleted_at = none;
  }
  query (λ d. record d { products = row ∷ d.products })
  pure id

-- `if (ids) syncProductImages(…)`
abbrev pub sync_if_given : Driver → ℕ → ℕ → Option (List ℕ) → Action (Unit {0})
sync_if_given driver actor product_id none = pure tt
sync_if_given driver actor product_id (some ids) = sync_product_images driver actor product_id ids

-- `if (ids && ids.length > 0)`
abbrev pub if_not_empty : Option (List ℕ) → Option (List ℕ)
if_not_empty none = none
if_not_empty (some []) = none
if_not_empty (some (id ∷ ids)) = some (id ∷ ids)

abbrev pub next_subcategory : Option (Option String) → Option String → Option String
next_subcategory none current = current
next_subcategory (some s) current = trimmed s

-- UPDATE products SET … COALESCE
abbrev pub changed : UpdateProductDto → Product → Product
changed dto p = record p {
  category = get_or_else (trimmed dto.category) p.category;
  subcategory = next_subcategory dto.subcategory p.subcategory;
  name = get_or_else dto.name p.name;
  description = get_or_else dto.description p.description;
  price = get_or_else dto.price p.price;
  city = get_or_else dto.city p.city;
  address_text = get_or_else dto.address_text p.address_text;
  details = or_else dto.details p.details;
  is_negotiable = get_or_else dto.is_negotiable p.is_negotiable;
  preferred_contact_method = get_or_else dto.preferred_contact_method p.preferred_contact_method;
}

module _ (driver : Driver) (user_id : ℕ) where
  unfoldable pub create_product : CreateProductDto → Action (Option ProductView)
  create_product dto = with_transaction (do
    assert_category_pair (trim dto.category) (trimmed dto.subcategory) false
    product_id ← insert_product user_id dto
    sync_if_given driver user_id product_id (if_not_empty dto.image_file_ids)
    fetch_product_with_images product_id (some user_id))

  -- SELECT owner_id … FOR UPDATE and the two tests that every change begins with
  unfoldable pub assert_owner : ℕ → Action Product
  assert_owner product_id = do
    found ← gets (λ w. find? (live_product product_id) w.db.products)
    p ← or_throw found (http not_found "Product not found")
    throw_if (not (is_id (to_positive_int (driver.int8 p.owner_id)) user_id))
        (http forbidden "Not allowed")
    pure p

  unfoldable pub update_product : ℕ → UpdateProductDto → Action (Option ProductView)
  update_product product_id dto = with_transaction (do
    current ← assert_owner product_id
    let next = changed dto current
    assert_category_pair next.category next.subcategory false
    throw_if (not (is_storable next.category next.subcategory)) (pg check_violation)
    query (λ d. record d {
      products = update_where (product_id_is product_id) (changed dto) d.products;
    })
    sync_if_given driver user_id product_id dto.image_file_ids
    fetch_product_with_images product_id (some user_id))

  unfoldable pub delete_product : ℕ → Action (Unit {0})
  delete_product product_id = with_transaction (do
    current ← assert_owner product_id
    now ← gets (λ w. w.now)
    query (λ d. record d {
      products =
          update_where (product_id_is product_id) (λ p. record p { deleted_at = some now })
            d.products;
    }))

  unfoldable pub update_product_status : ℕ → ProductStatus → Action ProductStatus
  update_product_status product_id status = with_transaction (do
    current ← assert_owner product_id
    query (λ d. record d {
      products =
          update_where (product_id_is product_id) (λ p. record p { status = status }) d.products;
    })
    pure status)
