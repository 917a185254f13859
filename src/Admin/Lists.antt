-- ===== src/Admin/Lists.antt =====
-- The lists of src/admin/admin.service.ts: `listUserListings`, `listAdmins`, `listReports`,
-- `listUserReports` and `getUserDetails`. The latest insert comes first; the times of creation and
-- of change are not among the columns.
use market_place.Base.{
  ℕ, String, Bool, true, false, Option, none, some, List, ◌==◌, ◌&&◌, not, find?, find_all, is_some,
  get_or_else, map, take, drop,
}
use market_place.Store.{
  Action, Db, http, not_found, pure, or_throw, gets, ◌>>=◌, ◌>>◌, User, UserStatus, Product,
  ProductStatus, available, sold, archived, Report,
}
use market_place.Auth.Session.{account_id}
use market_place.Auth.Tokens.{AppUser, map_to_app_user}
use market_place.Chat.Guards.{assert_user_exists}
use market_place.Products.Catalog.{ImageView, images_of}
use market_place.Products.Images.{is_uploaded}

-- a page, of 20 rows where no size is asked for
abbrev page : {A : Type 0} → Option ℕ → Option ℕ → List A → List A
page limit offset rows = take (get_or_else limit 20) (drop (get_or_else offset 0) rows)

record UserDetails : Type 0 where
  user : AppUser
  status : UserStatus
  avatar_file_id : Option ℕ
  contact_info : Option String
  is_admin : Bool

unfoldable get_user_details : ℕ → Action UserDetails
get_user_details user_id = do
  found ← gets (λ w. find? (account_id user_id) w.db.users)
  u ← or_throw found (http not_found "User not found")
  pure (record {
    user = map_to_app_user u;
    status = u.status;
    avatar_file_id = u.avatar_file_id;
    contact_info = u.contact_info;
    is_admin = u.is_admin;
  })

record Listing : Type 0 where
  id : ℕ
  name : String
  price : ℕ
  status : ProductStatus
  city : String
  product_image_file_id : Option ℕ

abbrev image_file_id : Option ImageView → Option ℕ
image_file_id none = none
image_file_id (some i) = some i.file_id

abbrev listing_of : Db → Product → Listing
listing_of d p = record {
  id = p.id;
  name = p.name;
  price = p.price;
  status = p.status;
  city = p.city;
  product_image_file_id =
      image_file_id (find? (λ (i : ImageView). is_uploaded i.status) (images_of p.id d));
}

record ReportRow : Type 0 where
  id : ℕ
  reporter_id : ℕ
  reported_user_id : ℕ
  description : String

abbrev report_row : Report → ReportRow
report_row r = record {
  id = r.id;
  reporter_id = r.reporter_id;
  reported_user_id = r.reported_user_id;
  description = r.reason;
}

-- the two statuses a list may ask for, and none for both
abbrev is_asked : Option ProductStatus → ProductStatus → Bool
is_asked none available = true
is_asked none sold = true
is_asked none archived = false
is_asked (some available) available = true
is_asked (some sold) sold = true
is_asked (some available) sold = false
is_asked (some available) archived = false
is_asked (some sold) available = false
is_asked (some sold) archived = false
is_asked (some archived) s = false

module _ (limit offset : Option ℕ) where
  unfoldable list_user_listings : ℕ → Option ProductStatus → Action (List Listing)
  list_user_listings user_id status = do
    assert_user_exists user_id "User"
    gets (λ w. map (listing_of w.db) (
        page limit offset (
          find_all
            (λ (p : Product).
              p.owner_id == user_id && not (is_some p.deleted_at) && is_asked status p.status)
            w.db.products)))

  unfoldable list_admins : Action (List (AppUser × Bool))
  list_admins = gets (λ w.
      map (λ u. (map_to_app_user u, u.is_admin))
        (page limit offset
          (find_all (λ (u : User). u.is_admin && not (is_some u.deleted_at)) w.db.users)))

  unfoldable list_reports : Action (List ReportRow)
  list_reports = gets (λ w. map report_row (page limit offset w.db.reports))

  unfoldable list_user_reports : ℕ → Action (List ReportRow)
  list_user_reports user_id = do
    assert_user_exists user_id "User"
    gets (λ w.
        map report_row (
          page limit offset
            (find_all (λ (r : Report). r.reported_user_id == user_id) w.db.reports)))
