-- ===== src/Relations/Entities.antt =====
-- What the ids of a response are replaced by: `fetchUsers`, `fetchCategories`, `fetchProducts`,
-- `fetchMessages`, `fetchConversations` and `fetchFiles` of
-- src/common/relations/fk-expansion.service.ts, each as the rows of its whole table with their ids.
-- The times of creation are not among the columns that the tables keep, and are left out.
use Prim.Native.String.{◌++◌}
use market_place.Base.{
  ℕ, ◌+◌, ◌*◌, ◌/◌, ◌%◌, String, Option, none, some, List, [], ◌∷◌, ◌==◌, ◌&&◌, not, find?,
  find_all, is_some, if◌then◌else◌, get_or_else, length, ltb,
}
use market_place.Base.Decimal.{digits}
use market_place.Base.Json.{Json, null, number, text, object, end, field}
use market_place.Base.Text.{is_empty}
use market_place.Store.{
  Db, User, UserStatus, active, paused, banned, File, FilePurpose, FileStatus, Product,
  ProductStatus, available, sold, archived, Category, Message, Conversation, Rating,
}
use market_place.Community.Ratings.{rating_sum, ratings_of}
use market_place.Files.ReadUrl.{build_read_url}
use market_place.Relations.Rules.{Entity, user, category, product, message, conversation, file}

abbrev pub status_text : UserStatus → String
status_text active = "active"
status_text paused = "paused"
status_text banned = "banned"

abbrev pub product_status_text : ProductStatus → String
product_status_text available = "available"
product_status_text sold = "sold"
product_status_text archived = "archived"

abbrev pub file_status_text : FileStatus → String
file_status_text FileStatus.pending = "pending"
file_status_text FileStatus.uploaded = "uploaded"
file_status_text FileStatus.failed = "failed"
file_status_text FileStatus.deleted = "deleted"

abbrev pub purpose_name : FilePurpose → String
purpose_name FilePurpose.avatar = "avatar"
purpose_name FilePurpose.product_image = "product_image"
purpose_name FilePurpose.chat_attachment = "chat_attachment"
purpose_name FilePurpose.document = "document"

abbrev pub text_or_null : Option String → Json
text_or_null none = null
text_or_null (some s) = text s

abbrev pub number_or_null : Option ℕ → Json
number_or_null none = null
number_or_null (some n) = number n

-- hundredths with two decimals
unfoldable pub hundredths_text : ℕ → String
hundredths_text h =
    digits (h / 100)
    ++ ("." ++ (if ltb (h % 100) 10 then "0" ++ digits (h % 100) else digits (h % 100)))

-- COALESCE(ROUND(AVG(rating_value), 2), 0.00)::text
unfoldable pub rate_text : List Rating → String
rate_text rs =
    if length rs == 0
    then "0.00"
    else hundredths_text ((2 * 100 * rating_sum rs + length rs) / (2 * length rs))

-- the row of a file with its URL, as an avatar and by itself
unfoldable pub file_json : String → File → Json
file_json cloud_name f = object (
    field "id" (number f.id) (
      field "purpose" (text (purpose_name f.purpose)) (
        field "object_key" (text f.object_key) (
          field "mime_type" (text_or_null f.mime_type) (
            field "status" (text (file_status_text f.status)) (
              field "uploaded_at" (number_or_null f.uploaded_at) (
                field "url"
                  (text (build_read_url cloud_name f.object_key (get_or_else f.mime_type "")))
                  end)))))))

abbrev avatar_or_null : String → Option File → Json
avatar_or_null cloud_name none = null
avatar_or_null cloud_name (some f) = if is_empty f.object_key then null else file_json cloud_name f

-- LEFT JOIN files f ON f.id = u.avatar_file_id; the id 0 is no file
abbrev avatar_of : Option ℕ → List File → Option File
avatar_of none files = none
avatar_of (some id) files = if id == 0 then none else find? (λ (f : File). f.id == id) files

-- the answer of mapToAppUser with the rate, the contact and the avatar
unfoldable pub user_json : String → Db → User → Json
user_json cloud_name d u = object (
    field "id" (number u.id) (
      field "name" (text u.name) (
        field "phone" (text u.phone) (
          field "profileState" (text (status_text u.status)) (
            field "rate" (text (rate_text (ratings_of u.id d.ratings))) (
              field "contactInfo" (text_or_null u.contact_info) (
                field "avatar" (avatar_or_null cloud_name (avatar_of u.avatar_file_id d.files))
                  end)))))))

-- an owner that is deleted, or has an empty name, is null
abbrev owner_json : String → Db → Option User → Json
owner_json cloud_name d none = null
owner_json cloud_name d (some u) = if is_empty u.name then null else user_json cloud_name d u

unfoldable pub product_json : String → Db → Product → Json
product_json cloud_name d p = object (
    field "id" (number p.id) (
      field "name" (text p.name) (
        field "price" (text (hundredths_text p.price)) (
          field "status" (text (product_status_text p.status)) (
            field "city" (text p.city) (
              field "owner"
                (owner_json cloud_name d
                  (find? (λ (u : User). u.id == p.owner_id && not (is_some u.deleted_at)) d.users))
                end))))))

unfoldable pub category_json : Category → Json
category_json c = object (
    field "id" (number c.id)
      (field "parent_id" (number_or_null c.parent_id) (field "name" (text c.name) end)))

unfoldable pub message_json : Message → Json
message_json m = object (
    field "id" (number m.id) (
      field "message_text" (text m.message_text)
        (field "sent_at" (number m.sent_at) (field "read_at" (number_or_null m.read_at) end))))

unfoldable pub conversation_json : Conversation → Json
conversation_json c =
    object (field "id" (number c.id) (field "created_at" (number c.created_at) end))

unfoldable pub keyed : {A : Type 0} → (A → ℕ) → (A → Json) → List A → List (ℕ × Json)
keyed id json [] = []
keyed id json (x ∷ xs) = (id x, json x) ∷ keyed id json xs

-- the rows that may be fetched, with their ids
unfoldable pub rows_of : String → Entity → Db → List (ℕ × Json)
rows_of cloud_name user d =
    keyed (λ (u : User). u.id) (user_json cloud_name d)
      (find_all (λ (u : User). not (is_some u.deleted_at)) d.users)
rows_of cloud_name category d = keyed (λ (c : Category). c.id) category_json d.categories
rows_of cloud_name product d =
    keyed (λ (p : Product). p.id) (product_json cloud_name d)
      (find_all (λ (p : Product). not (is_some p.deleted_at)) d.products)
rows_of cloud_name message d = keyed (λ (m : Message). m.id) message_json d.messages
rows_of cloud_name conversation d =
    keyed (λ (c : Conversation). c.id) conversation_json d.conversations
rows_of cloud_name file d = keyed (λ (f : File). f.id) (file_json cloud_name) d.files
