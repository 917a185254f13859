-- ===== src/Files/Uploads.antt =====
-- src/files/files.service.ts. A name's characters are replaced one by one, where the code replaces
-- UTF-16 units; the clock counts seconds.
pub mod Completion
use Prim.Native.Char.{Char, code}
use Prim.Native.String.{◌++◌}
use market_place.Base.{
  ℕ, ◌*◌, String, Bool, true, false, Option, none, some, List, ◌∷◌, ◌&&◌, ◌||◌, not, ◌==◌, leb,
  find?, update_where, any, is_some, is_id, or_else, if◌then◌else◌, get_or_else, str_eq,
}
use market_place.Base.Decimal.{digits, is_digit}
use market_place.Base.Text.{is_empty, starts_with}
use market_place.Store.{
  World, Db, Action, http, pg, unique_violation, foreign_key_violation, not_found, forbidden, pure,
  throw_if, or_throw, query, gets, fresh_id, draw, ◌>>=◌, ◌>>◌, User, File, FilePurpose, FileStatus,
  pending, uploaded, OwnerType, user, product, message,
}
use market_place.Auth.Strategy.{AuthUser}
use market_place.Chat.Guards.{Driver}
use market_place.Products.Images.{file_id_is, uploader_of}
use market_place.Files.ReadUrl.{build_read_url}
use market_place.Files.Storage.{StorageEnv, UploadIntent, sign_upload}

-- CreateUploadIntentDto; the size is not kept among the columns
pub record CreateUploadIntentDto : Type 0 where
  pub owner_type : OwnerType
  pub owner_id : Option ℕ
  pub purpose : FilePurpose
  pub filename : String
  pub mime_type : String

-- [a-zA-Z0-9._-]
abbrev is_safe_char : Char → Bool
is_safe_char c =
    (leb b'a' (code c) && leb (code c) b'z')
    || (leb b'A' (code c) && leb (code c) b'Z')
    || is_digit c
    || code c == b'.'
    || code c == b'_'
    || code c == b'-'

-- replace(/[^a-zA-Z0-9._-]/g, '_')
unfoldable pub safe_filename : String → String
safe_filename String.[] = ""
safe_filename (String.◌∷◌ c s) = String.◌∷◌ (if is_safe_char c then c else "_") (safe_filename s)

unfoldable pub has_dot : String → Bool
has_dot String.[] = false
has_dot (String.◌∷◌ c s) = code c == b'.' || has_dot s

-- replace(/\.[^.]+$/, '')
unfoldable pub drop_extension : String → String
drop_extension String.[] = ""
drop_extension (String.◌∷◌ c s) =
    let rest = drop_extension s in
    if code c == b'.' && not (is_empty s) && not (has_dot s) then "" else String.◌∷◌ c rest

abbrev owner_text : OwnerType → String
owner_text user = "user"
owner_text product = "product"
owner_text message = "message"

abbrev owner_id_text : Option ℕ → String
owner_id_text none = "temp"
owner_id_text (some id) = digits id

-- `random` is the hexadecimal text of four random bytes
unfoldable pub build_object_key : OwnerType → Option ℕ → String → String → ℕ → String → String
build_object_key owner_type owner_id filename mime_type now random =
    let safe = safe_filename filename in
    let base =
      if starts_with "image/" mime_type || starts_with "video/" mime_type
      then drop_extension safe
      else safe in
    owner_text owner_type
    ++ ("/"
        ++ (owner_id_text owner_id
            ++ ("/" ++ (digits (now * 1000) ++ ("-" ++ (random ++ ("-" ++ base)))))))

-- The INSERT with the foreign key of the uploader and the unique index. The provider and the bucket,
-- which the index has beside the object key, are settings, and so the same for every row.
unfoldable pub insert_file : ℕ → CreateUploadIntentDto → String → Action ℕ
insert_file uploader dto object_key = do
  id ← fresh_id
  known ← gets (λ w. any (λ (u : User). u.id == uploader) w.db.users)
  throw_if (not known) (pg foreign_key_violation)
  taken ← gets (λ w. any (λ (f : File). str_eq f.object_key object_key) w.db.files)
  throw_if taken (pg unique_violation)
  query (λ d. record d {
    files =
        record {
          id = id;
          uploader_user_id = some uploader;
          owner_type = dto.owner_type;
          owner_id = dto.owner_id;
          purpose = dto.purpose;
          object_key = object_key;
          mime_type = some dto.mime_type;
          checksum_sha256 = none;
          status = pending;
          uploaded_at = none;
        }
        ∷ d.files;
  })
  pure id

-- the answers: the file's id, object key and status
pub record FileSummary : Type 0 where
  pub id : ℕ
  pub object_key : String
  pub status : FileStatus

unfoldable pub create_upload_intent :
    StorageEnv → AuthUser → CreateUploadIntentDto → Action (FileSummary × UploadIntent)
create_upload_intent env actor dto = do
  n ← draw
  now ← gets (λ w. w.now)
  let object_key =
      build_object_key dto.owner_type dto.owner_id dto.filename dto.mime_type now (env.random_hex n)
  id ← insert_file actor.sub dto object_key
  pure (
    record { id = id; object_key = object_key; status = pending },
    sign_upload env object_key env.storage_upload_ttl_seconds now,
  )

-- the UPDATE; without a checksum an earlier one stays
abbrev pub with_upload : ℕ → Option String → File → File
with_upload now checksum f = record f {
  status = uploaded;
  uploaded_at = some now;
  checksum_sha256 = or_else checksum f.checksum_sha256;
}

module _ (driver : Driver) (actor : AuthUser) (file_id : ℕ) where
  unfoldable pub mark_uploaded : Option String → Action FileSummary
  mark_uploaded checksum = do
    found ← gets (λ w. find? (file_id_is file_id) w.db.files)
    f ← or_throw found (http not_found "File not found")
    throw_if (not (is_id (uploader_of driver f.uploader_user_id) actor.sub))
        (http forbidden "Not allowed")
    now ← gets (λ w. w.now)
    query (λ d. record d {
      files = update_where (file_id_is file_id) (with_upload now checksum) d.files;
    })
    pure (record { id = file_id; object_key = f.object_key; status = uploaded })

  -- the row with its URL
  unfoldable pub get_file : String → Action (File × String)
  get_file cloud_name = do
    found ← gets (λ w. find? (file_id_is file_id) w.db.files)
    f ← or_throw found (http not_found "File not found")
    throw_if (not actor.is_admin && not (is_id (uploader_of driver f.uploader_user_id) actor.sub))
        (http forbidden "Not allowed")
    pure (f, build_read_url cloud_name f.object_key (get_or_else f.mime_type ""))
