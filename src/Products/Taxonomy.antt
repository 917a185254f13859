-- ===== src/Products/Taxonomy.antt =====
-- The categories of products, src/products/product-taxonomy.ts.
use market_place.Base.{String, Bool, false, List, [], ◌∷◌, ◌&&◌, not, str_eq, any, if◌then◌else◌}

-- Array.includes
unfoldable pub includes : String → List String → Bool
includes s xs = any (λ x. str_eq x s) xs

abbrev pub product_subcategories : List String
product_subcategories =
    "all" ∷ "apartmentForRent" ∷ "apartmentForSale" ∷ "houses" ∷ "lands"
    ∷ "commercialRealEstateForRent" ∷ "commercialRealEstateForSale" ∷ "other" ∷ "carsForSale"
    ∷ "carsForRent" ∷ "sparePartsAndAccessories" ∷ "motorCycles" ∷ "bicycles"
    ∷ "trucksAndHeavyVehicles" ∷ "smartphones" ∷ "tablets" ∷ "laptopsAndComputers" ∷ "accessories"
    ∷ "speakersAndHeadphones" ∷ "cameras" ∷ "smartWatchesAndWearables" ∷ "monitorsAndTVs"
    ∷ "furniture" ∷ "officeFurniture" ∷ "kitchenAndDining" ∷ "beddingAndBath" ∷ "homeDecor"
    ∷ "homeTools" ∷ "lighting" ∷ "menClothing" ∷ "womenClothing" ∷ "kidsClothing" ∷ "shoes"
    ∷ "menAccessories" ∷ "womenAccessoriesAndMakeup" ∷ "jewelryAndWatches" ∷ "maintenanceAndRepairs"
    ∷ "transportationAndMoving" ∷ "personalServices" ∷ "carsServices" ∷ "homeServices"
    ∷ "lessonsAndTutoring" ∷ []

abbrev pub product_categories : List String
product_categories =
    "realEstate" ∷ "vehicles" ∷ "electronics" ∷ "homeAndDecor" ∷ "clothingAndFashion" ∷ "services"
    ∷ []

abbrev pub real_estate : List String
real_estate =
    "all" ∷ "apartmentForRent" ∷ "apartmentForSale" ∷ "houses" ∷ "lands"
    ∷ "commercialRealEstateForRent" ∷ "commercialRealEstateForSale" ∷ "other" ∷ []

abbrev pub vehicles : List String
vehicles =
    "all" ∷ "carsForSale" ∷ "carsForRent" ∷ "sparePartsAndAccessories" ∷ "motorCycles" ∷ "bicycles"
    ∷ "trucksAndHeavyVehicles" ∷ []

abbrev pub electronics : List String
electronics =
    "all" ∷ "smartphones" ∷ "tablets" ∷ "laptopsAndComputers" ∷ "accessories"
    ∷ "speakersAndHeadphones" ∷ "cameras" ∷ "smartWatchesAndWearables" ∷ "monitorsAndTVs" ∷ "other"
    ∷ []

abbrev pub home_and_decor : List String
home_and_decor =
    "all" ∷ "furniture" ∷ "officeFurniture" ∷ "kitchenAndDining" ∷ "beddingAndBath" ∷ "homeDecor"
    ∷ "homeTools" ∷ "lighting" ∷ "other" ∷ []

abbrev pub clothing_and_fashion : List String
clothing_and_fashion =
    "all" ∷ "menClothing" ∷ "womenClothing" ∷ "kidsClothing" ∷ "shoes" ∷ "menAccessories"
    ∷ "womenAccessoriesAndMakeup" ∷ "jewelryAndWatches" ∷ "other" ∷ []

abbrev pub services : List String
services =
    "all" ∷ "maintenanceAndRepairs" ∷ "transportationAndMoving" ∷ "personalServices"
    ∷ "carsServices" ∷ "homeServices" ∷ "lessonsAndTutoring" ∷ "other" ∷ []

-- CATEGORY_TO_SUBCATEGORIES[category], of a category that is valid
unfoldable pub category_to_subcategories : String → List String
category_to_subcategories category =
    if str_eq "realEstate" category
    then real_estate
    else if str_eq "vehicles" category
    then vehicles
    else if str_eq "electronics" category
    then electronics
    else if str_eq "homeAndDecor" category
    then home_and_decor
    else if str_eq "clothingAndFashion" category
    then clothing_and_fashion
    else if str_eq "services" category
    then services
    else []

unfoldable pub is_valid_category : String → Bool
is_valid_category category = includes category product_categories

unfoldable pub is_valid_subcategory : String → String → Bool
is_valid_subcategory category subcategory =
    if not (is_valid_category category)
    then false
    else includes subcategory (category_to_subcategories category)

unfoldable pub is_allowed_product_subcategory : String → String → Bool
is_allowed_product_subcategory category subcategory =
    is_valid_subcategory category subcategory && not (str_eq subcategory "all")

unfoldable pub get_allowed_subcategories : String → List String
get_allowed_subcategories category =
    if not (is_valid_category category) then [] else category_to_subcategories category
