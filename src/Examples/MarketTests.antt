-- ===== src/Examples/MarketTests.antt =====
-- The properties of products, accounts, blocks and ratings at the sample tables.
use market_place.Base.{
  ℕ, suc, get_elem?, ◌≤◌, ◌≡◌, ◌≢◌, refl, arith, true, false, none, some, List, [], ◌∷◌, any, find?,
  find_all, count_where, length, update_where, ◌==◌, inr,
}
use market_place.Base.JsValue.{to_positive_int}
use market_place.Store.{
  ok, err, http, bad_request, unauthorized, forbidden, not_found, File, Rating, sold, banned,
}
use market_place.Auth.Strategy.{validate}
use market_place.Chat.Guards.{assert_conversation_participant, assert_user_exists}
use market_place.Products.Taxonomy.{
  includes, is_valid_category, is_valid_subcategory, is_allowed_product_subcategory,
  category_to_subcategories,
}
use market_place.Products.Pairs.{
  assert_category_pair, is_storable, assert_category_pair-is_storable,
}
use market_place.Products.Images.{sync_product_images, check_files, check_file}
use market_place.Products.Images.Sync.{
  AllUsable, of_product, of_other_product, image_at, sync_product_images-replaces,
}
use market_place.Products.Catalog.{
  UpdateProductDto, update_product, delete_product, update_product_status, get_product_by_id,
}
use market_place.Products.Catalog.Ownership.{not_owner-refused, IsNotFound, delete_product-gone}
use market_place.Products.Filters.{FilterDto, build_search_filters, push, limit_index, offset_index}
use market_place.Products.Filters.Placeholders.{
  placeholders, numbers_from, build_search_filters-Aligned,
}
use market_place.Admin.Accounts.{promote_admin, demote_admin, update_user_status, delete_user}
use market_place.Admin.Accounts.Revocation.{
  role_change-revokes, delete_user-revokes, update_user_status-keeps_tokens, AcceptsAs, HasRole,
}
use market_place.Community.Blocks.{block_user, add_favorite}
use market_place.Users.Profile.{get_public_profile}
use market_place.Community.Blocks.Barrier.{block_user-bars}
use market_place.Community.Ratings.{rating_is, rate_user, insert_rating}
use market_place.Community.Ratings.Single.{rate_user-single}
use market_place.Examples.Fixture.{shop, ann, bike, talk, ann_payload, number_driver, number-reads}

assert_category_pair-is_storable_example :
    is_storable "vehicles" (some "trucksAndHeavyVehicles") ≡ true
unfolding assert_category_pair is_valid_category is_valid_subcategory is_allowed_product_subcategory
    includes any category_to_subcategories
assert_category_pair-is_storable_example =
    assert_category_pair-is_storable "vehicles" (some "trucksAndHeavyVehicles") shop refl

sync_product_images-replaces_example :
    let after = (sync_product_images number_driver 1 20 (30 ∷ []) shop).1.db.product_images in
    (files : List File) × AllUsable 1 shop.db (30 ∷ []) files
    × ((i : ℕ)
        → get_elem? (find_all (of_product 20) after) i
          ≡ image_at 20 i (get_elem? (30 ∷ []) i) (get_elem? files i))
    × (find_all (of_other_product 20) after ≡ find_all (of_other_product 20) shop.db.product_images)
unfolding sync_product_images check_files check_file find? to_positive_int
sync_product_images-replaces_example =
    sync_product_images-replaces number_driver 1 20 (30 ∷ []) shop refl

-- only new images, one of which is of no file
abbrev bad_images : UpdateProductDto
bad_images = record {
  category = none;
  subcategory = none;
  name = none;
  description = none;
  price = none;
  city = none;
  address_text = none;
  details = none;
  image_file_ids = some (30 ∷ 99 ∷ []);
  is_negotiable = none;
  preferred_contact_method = none;
}

not_owner-refused_example :
    (update_product number_driver 2 20 bad_images shop ≡ (err (http forbidden "Not allowed"), shop))
    × (delete_product number_driver 2 20 shop ≡ (err (http forbidden "Not allowed"), shop))
    × (update_product_status number_driver 2 20 sold shop
        ≡ (err (http forbidden "Not allowed"), shop))
unfolding find?
not_owner-refused_example =
    not_owner-refused number_driver 2 20 bad_images sold shop bike refl (omega arith)
      (λ e. omega (arith, e))

delete_product-gone_example :
    ((delete_product number_driver 1 20 shop).0 ≡ ok tt)
    × IsNotFound number_driver 20 (delete_product number_driver 1 20 shop).1
unfolding find?
delete_product-gone_example =
    delete_product-gone number_driver 1 20 shop bike refl (omega arith) refl

abbrev cheap_bikes : FilterDto
cheap_bikes = record {
  category = some "vehicles";
  subcategory = some "all";
  min_price = none;
  max_price = some 20000;
  from_date = none;
  to_date = none;
  city = some "Cairo";
  address_text = none;
  q = none;
  min_rate = none;
  status = some "available";
}

build_search_filters-Aligned_example :
    let f = build_search_filters cheap_bikes 1 "plv." in
    (placeholders f.clauses ≡ numbers_from 2 (length f.params))
    × (push (offset_index 1 f.params) (push (limit_index 1 f.params) (placeholders f.clauses))
        ≡ numbers_from 2 (suc (suc (length f.params))))
build_search_filters-Aligned_example = build_search_filters-Aligned cheap_bikes 1 "plv."

role_change-revokes_example :
    (ann.is_admin ≡ false → HasRole true 1 ann ann_payload (promote_admin 2 1 shop))
    × (ann.is_admin ≡ true
        → (2 == 1) ≡ false
        → HasRole false 1 ann ann_payload (demote_admin 2 1 shop))
unfolding find?
role_change-revokes_example =
    role_change-revokes 2 1 ann ann_payload shop refl (number-reads 1 (omega arith), refl)

delete_user-revokes_example :
    (validate ann_payload (delete_user 2 1 shop).1).0 ≡ err (http unauthorized "Token is stale")
unfolding find?
delete_user-revokes_example =
    delete_user-revokes 2 1 ann ann_payload shop refl (number-reads 1 (omega arith), refl)

update_user_status-keeps_tokens_example :
    AcceptsAs ann_payload 1 ann (update_user_status 2 1 banned shop).1
unfolding find?
update_user_status-keeps_tokens_example =
    update_user_status-keeps_tokens 2 1 ann banned ann_payload shop refl
      (number-reads 1 (omega arith), refl)

-- Bob, the side with the higher id, blocks Ann.
block_user-bars_example :
    let after = (block_user 2 1 shop).1 in
    ((block_user 2 1 shop).0 ≡ ok tt)
    × ((assert_conversation_participant number_driver 40 2 after).0 ≢ ok tt)
    × ((assert_conversation_participant number_driver 40 1 after).0 ≢ ok tt)
    × ((get_product_by_id 20 (some 2) after).0 ≡ err (http not_found "Product not found"))
    × ((add_favorite 2 20 after).0 ≡ err (http bad_request "Cannot favorite this product"))
    × ((get_public_profile "market" 1 20 0 (some 2) after).0
        ≡ err (http not_found "User not found"))
    × ((get_public_profile "market" 2 20 0 (some 1) after).0
        ≡ err (http not_found "User not found"))
unfolding find? any
block_user-bars_example =
    block_user-bars number_driver "market" 2 1 40 20 20 0 shop talk bike refl refl (refl, refl) refl
      (omega arith, omega arith) (inr (refl, refl)) refl refl

rate_user-single_example :
    let after = (rate_user 2 1 5 none shop).1.db.ratings in
    ((1 ≤ 5) × (5 ≤ 5) × ((2 == 1) ≡ false))
    × (count_where (rating_is 2 1) after ≡ 1)
    × ((s : Rating) × (find? (rating_is 2 1) after ≡ some s)
        × (s.rating_value ≡ 5)
        × (s.comment ≡ none))
unfolding rate_user insert_rating assert_user_exists any find? count_where update_where
rate_user-single_example = rate_user-single 2 1 5 none shop (omega arith) refl
