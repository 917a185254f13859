-- ===== src/Users/Profile.antt =====
-- The profile in src/users/users.service.ts: `getMe`, `getPublicProfile` and `updateMe`. The time of
-- creation is not among the columns; products are listed the latest insert first.
use market_place.Base.{
  ℕ, String, Bool, true, false, Option, none, some, List, [], ◌∷◌, ◌==◌, ◌&&◌, ◌||◌, not, find?,
  find_all, any, update_where, count_where, is_some, is_id, if◌then◌else◌, get_or_else, take, drop,
}
use market_place.Base.Json.{Json}
use market_place.Store.{
  Action, Db, http, not_found, bad_request, forbidden, pure, throw_if, or_throw, query, gets, ◌>>=◌,
  ◌>>◌, User, Product, ProductStatus, available, sold, archived, FilePurpose,
}
use market_place.Auth.Session.{account_id}
use market_place.Chat.Guards.{Driver}
use market_place.Community.Blocks.{block_is}
use market_place.Products.Images.{file_id_is, is_uploaded, uploader_of}
use market_place.Products.Catalog.{ProductView, view_of}
use market_place.Relations.Entities.{user_json}

-- `cloud_name` is configuration, for the URL of the avatar
unfoldable pub get_me : String → ℕ → Action Json
get_me cloud_name user_id = do
  found ← gets (λ w. find? (account_id user_id) w.db.users)
  u ← or_throw found (http not_found "User not found")
  gets (λ w. user_json cloud_name w.db u)

-- the answer: the account, and the page of its products
pub record PublicProfile : Type 0 where
  pub user : Json
  pub ads_count : ℕ
  pub blocked_by_me : Option Bool
  pub blocked_me : Option Bool
  pub products : List ProductView

-- a viewer that is there and not 0
abbrev pub truthy_viewer : Option ℕ → Option ℕ
truthy_viewer none = none
truthy_viewer (some id) = if id == 0 then none else some id

abbrev blocked_by : ℕ → Option ℕ → Db → Bool
blocked_by user_id none d = false
blocked_by user_id (some viewer) d = any (block_is viewer user_id) d.blocks

abbrev blocks_viewer : ℕ → Option ℕ → Db → Bool
blocks_viewer user_id none d = false
blocks_viewer user_id (some viewer) d = any (block_is user_id viewer) d.blocks

abbrev shown_to : Option ℕ → Bool → Option Bool
shown_to none flag = none
shown_to (some viewer) flag = some flag

abbrev is_listed_status : ProductStatus → Bool
is_listed_status available = true
is_listed_status sold = false
is_listed_status archived = false

abbrev with_view : Option ProductView → List ProductView → List ProductView
with_view none rest = rest
with_view (some v) rest = v ∷ rest

unfoldable pub views : Option ℕ → Db → List Product → List ProductView
views viewer d [] = []
views viewer d (p ∷ ps) = with_view (view_of viewer d (some p)) (views viewer d ps)

unfoldable pub get_public_profile : String → ℕ → ℕ → ℕ → Option ℕ → Action PublicProfile
get_public_profile cloud_name user_id limit offset viewer_user_id = do
  let viewer = truthy_viewer viewer_user_id
  by_me ← gets (λ w. blocked_by user_id viewer w.db)
  me ← gets (λ w. blocks_viewer user_id viewer w.db)
  throw_if (by_me || me) (http not_found "User not found")
  found ← gets (λ w. find? (account_id user_id) w.db.users)
  u ← or_throw found (http not_found "User not found")
  gets (λ w. record {
    user = user_json cloud_name w.db u;
    ads_count =
        count_where (λ (p : Product). p.owner_id == user_id && not (is_some p.deleted_at))
          w.db.products;
    blocked_by_me = shown_to viewer by_me;
    blocked_me = shown_to viewer me;
    products = views viewer_user_id w.db (
        take limit (
          drop offset (
            find_all
              (λ (p : Product).
                p.owner_id == user_id && not (is_some p.deleted_at) && is_listed_status p.status)
              w.db.products)));
  })

-- UpdateProfileDto: a field that is absent, or present with a value or null
pub record UpdateProfileDto : Type 0 where
  pub name : Option (Option String)
  pub avatar_file_id : Option (Option ℕ)
  pub contact_info : Option (Option String)

abbrev is_avatar : FilePurpose → Bool
is_avatar FilePurpose.avatar = true
is_avatar FilePurpose.product_image = false
is_avatar FilePurpose.chat_attachment = false
is_avatar FilePurpose.document = false

-- the checks on a new avatar
unfoldable pub check_avatar : Driver → ℕ → Option (Option ℕ) → Action (Unit {0})
check_avatar driver user_id (some (some id)) = do
  found ← gets (λ w. find? (file_id_is id) w.db.files)
  f ← or_throw found (http not_found "Avatar file not found")
  throw_if (not (is_id (uploader_of driver f.uploader_user_id) user_id))
      (http forbidden "Not allowed to use this file")
  throw_if (not (is_uploaded f.status) || not (is_avatar f.purpose))
      (http bad_request "Avatar file must be an uploaded avatar")
check_avatar driver user_id (some none) = pure tt
check_avatar driver user_id none = pure tt

-- the SET of the UPDATE
abbrev pub with_profile : UpdateProfileDto → User → User
with_profile dto u = record u {
  name = get_or_else (get_or_else dto.name none) u.name;
  avatar_file_id = get_or_else dto.avatar_file_id u.avatar_file_id;
  contact_info = get_or_else dto.contact_info u.contact_info;
}

unfoldable pub update_me : Driver → String → ℕ → UpdateProfileDto → Action Json
update_me driver cloud_name user_id dto = do
  throw_if
      (not (is_some dto.name) && not (is_some dto.avatar_file_id) && not (is_some dto.contact_info))
      (http bad_request "Nothing to update")
  check_avatar driver user_id dto.avatar_file_id
  query (λ d. record d { users = update_where (account_id user_id) (with_profile dto) d.users })
  get_me cloud_name user_id
