-- ===== src/Examples/CategoryTests.antt =====
-- The properties of categories and of refusals in the chat at sample values.
use market_place.Base.{◌≡◌, refl, none, some, [], ◌∷◌, any}
use market_place.Base.Json.{Json, null, number, Fields, end, field, get_key}
use market_place.Store.{World, Category}
use market_place.Categories.{create_category, delete_category}
use market_place.Categories.Forest.{IsForest, categories-IsForest}
use market_place.Chat.Errors.{catch_ws}
use market_place.Chat.Errors.Disclosure.{refusal, catch_ws-discloses}
use market_place.Examples.Fixture.{shop}

abbrev vehicles : Category
vehicles = record { id = 3; parent_id = none; name = "Vehicles" }

abbrev bicycles : Category
bicycles = record { id = 4; parent_id = some 3; name = "Bicycles" }

abbrev sorted_shop : World
sorted_shop = record shop { db = record shop.db { categories = bicycles ∷ vehicles ∷ [] } }

categories-IsForest_example :
    IsForest (create_category "Trucks" (some 3) sorted_shop).1.db.categories
    × IsForest (delete_category 4 sorted_shop).1.db.categories
unfolding any
categories-IsForest_example = categories-IsForest "Trucks" (some 3) 4 sorted_shop (refl, (refl, tt))

abbrev context_of : Json → Fields
context_of participant = field "userAId" participant (field "conversationId" (number 40) end)

catch_ws-discloses_example :
    (catch_ws "message.send" null "c-1" "2026-01-01"
      (refusal "No" "NOT_PARTICIPANT" (context_of (number 1)))).emitted
    ≡ (catch_ws "message.send" null "c-1" "2026-01-01"
        (refusal "No" "NOT_PARTICIPANT" (context_of (number 9)))).emitted
unfolding get_key
catch_ws-discloses_example =
    catch_ws-discloses "message.send" "c-1" "2026-01-01" "No" "NOT_PARTICIPANT" null
      (context_of (number 1)) (context_of (number 9)) refl
