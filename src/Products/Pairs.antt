-- ===== src/Products/Pairs.antt =====
-- `assertCategoryPair` and `assertSearchCategoryPair` of src/products/products.service.ts, `trim`, and
-- the checks of the table `products` in db/schema.sql.
use market_place.Base.{
  String, Bool, true, false, Option, none, some, ◌∷◌, ◌&&◌, not, str_eq, str_eq_iff, any, all, List,
  [], ◌≡◌, arith, Bool-cases, inl, inr, refl, and-true,
}
use market_place.Base.Text.{truthy_text}
use market_place.Store.{Action, World, ok, http, bad_request, pure, throw_if, ◌>>◌}
use market_place.Products.Taxonomy.{
  includes, is_valid_category, is_valid_subcategory, is_allowed_product_subcategory,
  product_categories, category_to_subcategories, real_estate, vehicles, electronics, home_and_decor,
  clothing_and_fashion, services,
}

-- what follows the test for null
abbrev pub check_subcategory : String → Option String → Bool → Action (Unit {0})
check_subcategory category none allow_all = pure tt
check_subcategory category (some s) allow_all = do
  throw_if (not (is_valid_subcategory category s))
      (http bad_request "Invalid subcategory for category")
  throw_if (not allow_all && not (is_allowed_product_subcategory category s))
      (http bad_request "subcategory cannot be all")

unfoldable pub assert_category_pair : String → Option String → Bool → Action (Unit {0})
assert_category_pair category subcategory allow_all = do
  throw_if (not (is_valid_category category)) (http bad_request "Invalid category")
  check_subcategory category subcategory allow_all

abbrev pub search_pair : Option String → Option String → Action (Unit {0})
search_pair none s = pure tt
search_pair (some c) none = pure tt
search_pair (some c) (some s) = assert_category_pair c (some s) true

unfoldable pub assert_search_category_pair : Option String → Option String → Action (Unit {0})
assert_search_category_pair category subcategory =
    search_pair (truthy_text category) (truthy_text subcategory)

-- the lists that the checks of db/schema.sql write out
abbrev pub schema_categories : List String
schema_categories =
    "realEstate" ∷ "vehicles" ∷ "electronics" ∷ "homeAndDecor" ∷ "clothingAndFashion" ∷ "services"
    ∷ []

abbrev pub schema_subcategories : List String
schema_subcategories =
    "all" ∷ "apartmentForRent" ∷ "apartmentForSale" ∷ "houses" ∷ "lands"
    ∷ "commercialRealEstateForRent" ∷ "commercialRealEstateForSale" ∷ "other" ∷ "carsForSale"
    ∷ "carsForRent" ∷ "sparePartsAndAccessories" ∷ "motorCycles" ∷ "bicycles"
    ∷ "trucksAndHeavyVehicles" ∷ "smartphones" ∷ "tablets" ∷ "laptopsAndComputers" ∷ "accessories"
    ∷ "speakersAndHeadphones" ∷ "cameras" ∷ "smartWatchesAndWearables" ∷ "monitorsAndTVs"
    ∷ "furniture" ∷ "officeFurniture" ∷ "kitchenAndDining" ∷ "beddingAndBath" ∷ "homeDecor"
    ∷ "homeTools" ∷ "lighting" ∷ "menClothing" ∷ "womenClothing" ∷ "kidsClothing" ∷ "shoes"
    ∷ "menAccessories" ∷ "womenAccessoriesAndMakeup" ∷ "jewelryAndWatches" ∷ "maintenanceAndRepairs"
    ∷ "transportationAndMoving" ∷ "personalServices" ∷ "carsServices" ∷ "homeServices"
    ∷ "lessonsAndTutoring" ∷ []

-- the check on products.subcategory
abbrev pub storable_subcategory : Option String → Bool
storable_subcategory none = true
storable_subcategory (some s) = not (str_eq s "all") && includes s schema_subcategories

-- the checks on products.category and products.subcategory
unfoldable pub is_storable : String → Option String → Bool
is_storable category subcategory =
    includes category schema_categories && storable_subcategory subcategory

-- A text of a list is a text of any list that has all its texts.
includes-all :
    (s : String) (part whole : List String)
    → all (λ x. includes x whole) part ≡ true
    → includes s part ≡ true
    → includes s whole ≡ true
unfolding includes any all
includes-all s [] whole h k = ground (arith, k)
includes-all s (x ∷ part) whole h k = elim (Bool-cases (str_eq x s)) [
  | inl e ↦ rw (← (str_eq_iff x s).0 e) (and-true _ _ h).0
  | inr e ↦ includes-all s part whole (and-true _ _ h).1 (rw e at k)
]

includes-category :
    (category : String)
    → includes category product_categories ≡ true
    → includes category schema_categories ≡ true
includes-category category h =
    includes-all category product_categories schema_categories (unfold includes any all in refl) h

includes-subcategory :
    (category s : String)
    → includes s (category_to_subcategories category) ≡ true
    → includes s schema_subcategories ≡ true
unfolding category_to_subcategories
includes-subcategory category s h = elim (Bool-cases (str_eq "realEstate" category)) [
  | inl e ↦
      includes-all s real_estate schema_subcategories (unfold includes any all in refl) (rw e at h)
  | inr e1 ↦ elim (Bool-cases (str_eq "vehicles" category)) [
    | inl e ↦
        includes-all s vehicles schema_subcategories (unfold includes any all in refl)
          (rw (e1, e) at h)
    | inr e2 ↦ elim (Bool-cases (str_eq "electronics" category)) [
      | inl e ↦
          includes-all s electronics schema_subcategories (unfold includes any all in refl)
            (rw (e1, e2, e) at h)
      | inr e3 ↦ elim (Bool-cases (str_eq "homeAndDecor" category)) [
        | inl e ↦
            includes-all s home_and_decor schema_subcategories (unfold includes any all in refl)
              (rw (e1, e2, e3, e) at h)
        | inr e4 ↦ elim (Bool-cases (str_eq "clothingAndFashion" category)) [
          | inl e ↦
              includes-all s clothing_and_fashion schema_subcategories
                (unfold includes any all in refl) (rw (e1, e2, e3, e4, e) at h)
          | inr e5 ↦ elim (Bool-cases (str_eq "services" category)) [
            | inl e ↦
                includes-all s services schema_subcategories (unfold includes any all in refl)
                  (rw (e1, e2, e3, e4, e5, e) at h)
            | inr e6 ↦
                includes-all s [] schema_subcategories (unfold all in refl)
                  (rw (e1, e2, e3, e4, e5, e6) at h)
          ]
        ]
      ]
    ]
  ]
]

-- A pair that `assertCategoryPair` accepts for a product meets the checks of the table, so that no
-- accepted pair makes the INSERT or UPDATE fail on them.
pub assert_category_pair-is_storable :
    (category : String) (subcategory : Option String) (w : World)
    → (assert_category_pair category subcategory false w).0 ≡ ok tt
    → is_storable category subcategory ≡ true
unfolding assert_category_pair is_storable is_valid_category is_valid_subcategory
    is_allowed_product_subcategory
assert_category_pair-is_storable category none w h =
    let valid : includes category product_categories ≡ true = ground (arith, h) in
    rw (includes-category category valid) refl
assert_category_pair-is_storable category (some s) w h =
    let valid : includes category product_categories ≡ true = ground (arith, h) in
    let listed : includes s (category_to_subcategories category) ≡ true =
      ground (arith, h, valid) in
    let proper : str_eq s "all" ≡ false = ground (arith, h, valid, listed) in
    rw (includes-category category valid, proper, includes-subcategory category s listed) refl
