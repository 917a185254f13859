-- ===== src/Relations/Rules.antt =====
-- `FK_RULES`, `deriveOutputKey` and `toPositiveInt` of src/common/relations/fk-expansion.service.ts.
use market_place.Base.{ℕ, String, Bool, true, false, Option, none, some, str_eq, if◌then◌else◌}
use market_place.Base.Json.{Json, number, text}
use market_place.Base.JsValue.{JsValue, to_positive_int}

-- EntityType
pub data Entity : Type 0 where
  user category product message conversation file : Entity

-- `shouldExpand` is there for `owner_id` alone, which stays an id beside an `owner_type`
pub record FkRule : Type 0 where
  pub entity : Entity
  pub output_key : Option String
  pub unless_owner_type : Bool

abbrev plain : Entity → Option FkRule
plain e = some (record { entity = e; output_key = none; unless_owner_type = false })

abbrev renamed : Entity → String → Option FkRule
renamed e key = some (record { entity = e; output_key = some key; unless_owner_type = false })

unfoldable pub fk_rule : String → Option FkRule
fk_rule key =
    if str_eq key "admin_id"
    then plain user
    else if str_eq key "avatar_file_id"
    then plain file
    else if str_eq key "blocked_id"
    then plain user
    else if str_eq key "blocker_id"
    then plain user
    else if str_eq key "conversation_id"
    then plain conversation
    else if str_eq key "file_id"
    then plain file
    else if str_eq key "last_message_id"
    then plain message
    else if str_eq key "owner_id"
    then some (record { entity = user; output_key = none; unless_owner_type = true })
    else if str_eq key "parent_id"
    then plain category
    else if str_eq key "peer_user_id"
    then plain user
    else if str_eq key "product_id"
    then plain product
    else if str_eq key "product_image_file_id"
    then renamed file "product_image"
    else if str_eq key "rated_user_id"
    then plain user
    else if str_eq key "rater_id"
    then plain user
    else if str_eq key "reported_user_id"
    then plain user
    else if str_eq key "reporter_id"
    then plain user
    else if str_eq key "reviewed_by"
    then renamed user "reviewed_by"
    else if str_eq key "sender_id"
    then plain user
    else if str_eq key "target_user_id"
    then plain user
    else if str_eq key "uploader_user_id"
    then plain user
    else if str_eq key "user_a_id"
    then plain user
    else if str_eq key "user_b_id"
    then plain user
    else if str_eq key "user_id"
    then plain user
    else none

-- `key.endsWith('_id') ? key.slice(0, -3) : key`
unfoldable pub derive_output_key : String → String
derive_output_key String.[] = ""
derive_output_key (String.◌∷◌ c s) =
    let rest = derive_output_key s in
    if str_eq (String.◌∷◌ c s) "_id" then "" else String.◌∷◌ c rest

-- the key that the expanded entity stands under
abbrev pub output_key_of : FkRule → String → String
output_key_of rule key = elim rule.output_key as (λ _. String) [
  | none ↦ derive_output_key key
  | some k ↦ k
]

-- a positive number, or a text of digits of one
unfoldable pub id_of : Json → Option ℕ
id_of (number n) = to_positive_int (JsValue.number n)
id_of (text s) = to_positive_int (JsValue.text s)
id_of _ = none

-- the rule that applies to a key of an object, which has an `owner_type` or not
abbrev guarded : Bool → Option FkRule → Option FkRule
guarded typed none = none
guarded typed (some rule) =
    if rule.unless_owner_type then (if typed then none else some rule) else some rule

unfoldable pub applied_rule : Bool → String → Option FkRule
applied_rule typed key = guarded typed (fk_rule key)
