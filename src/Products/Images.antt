-- ===== src/Products/Images.antt =====
-- `syncProductImages` of src/products/products.service.ts.
pub mod Sync
use Prim.Native.String.{◌++◌}
use market_place.Base.{
  ℕ, ◌+◌, String, Bool, true, false, Option, none, some, List, [], ◌∷◌, ◌==◌, not, ◌&&◌, find?,
  update_where, delete_where, any, if◌then◌else◌, is_id,
}
use market_place.Base.Decimal.{digits}
use market_place.Base.JsValue.{JsValue, to_positive_int}
use market_place.Store.{
  World, Db, Action, http, bad_request, forbidden, pure, throw_if, or_throw, query, gets, ◌>>=◌,
  ◌>>◌, File, FilePurpose, product_image, FileStatus, uploaded, OwnerType, product, ProductImage,
}
use market_place.Chat.Guards.{Driver}

abbrev pub is_product_image : FilePurpose → Bool
is_product_image FilePurpose.product_image = true
is_product_image FilePurpose.avatar = false
is_product_image FilePurpose.chat_attachment = false
is_product_image FilePurpose.document = false

abbrev pub is_uploaded : FileStatus → Bool
is_uploaded FileStatus.uploaded = true
is_uploaded FileStatus.pending = false
is_uploaded FileStatus.failed = false
is_uploaded FileStatus.deleted = false

-- `toPositiveInt(file.uploader_user_id)`
abbrev pub uploader_of : Driver → Option ℕ → Option ℕ
uploader_of driver none = none
uploader_of driver (some id) = to_positive_int (driver.int8 id)

abbrev pub file_id_is : ℕ → File → Bool
file_id_is id f = f.id == id

module _ (driver : Driver) (actor_user_id : ℕ) where
  -- the checks on one file of the list
  unfoldable pub check_file : ℕ → Action File
  check_file file_id = do
    found ← gets (λ w. find? (file_id_is file_id) w.db.files)
    file ← or_throw found (http bad_request ("File " ++ digits file_id ++ " does not exist"))
    throw_if (not (is_product_image file.purpose))
        (http bad_request ("File " ++ digits file_id ++ " must have purpose product_image"))
    throw_if (not (is_id (uploader_of driver file.uploader_user_id) actor_user_id))
        (http forbidden ("File " ++ digits file_id ++ " is not owned by the current user"))
    throw_if (not (is_uploaded file.status)) (
        http bad_request
          ("File " ++ digits file_id ++ " must be uploaded before product association"))
    pure file

  unfoldable pub check_files : List ℕ → Action (List File)
  check_files [] = pure []
  check_files (id ∷ ids) = do file ← check_file id; rest ← check_files ids; pure (file ∷ rest)

-- the rows of the INSERT, with the sort order from `i` on
unfoldable pub image_rows : ℕ → ℕ → List ℕ → List File → List ProductImage
image_rows product_id i [] files = []
image_rows product_id i (id ∷ ids) [] = []
image_rows product_id i (id ∷ ids) (f ∷ files) =
    record { product_id = product_id; file_id = id; object_key = f.object_key; sort_order = i }
    ∷ image_rows product_id (i + 1) ids files

unfoldable pub append_rows : List ProductImage → List ProductImage → List ProductImage
append_rows [] rows = rows
append_rows (r ∷ rs) rows = r ∷ append_rows rs rows

-- `id = ANY($2::bigint[])`
abbrev pub is_any_of : List ℕ → ℕ → Bool
is_any_of ids id = any (λ x. x == id) ids

-- the batch INSERT, and the UPDATE of the files' owner
unfoldable pub attach_images : ℕ → List ℕ → List File → Db → Db
attach_images product_id ids files d = record d {
  product_images = append_rows (image_rows product_id 0 ids files) d.product_images;
  files =
      update_where (λ (f : File). is_any_of ids f.id)
        (λ f. record f { owner_type = product; owner_id = some product_id }) d.files;
}

unfoldable pub sync_product_images : Driver → ℕ → ℕ → List ℕ → Action (Unit {0})
sync_product_images driver actor_user_id product_id [] = query (λ d. record d {
  product_images = delete_where (λ (i : ProductImage). i.product_id == product_id) d.product_images;
})
sync_product_images driver actor_user_id product_id (id ∷ ids) = do
  query (λ d. record d {
    product_images =
        delete_where (λ (i : ProductImage). i.product_id == product_id) d.product_images;
  })
  files ← check_files driver actor_user_id (id ∷ ids)
  query (attach_images product_id (id ∷ ids) files)
