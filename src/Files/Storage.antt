-- ===== src/Files/Storage.antt =====
-- src/files/storage/cloudinary-storage-uploader.service.ts: the signed fields of an upload. The hash
-- function and the spelling of times, which Node.js gives, are parameters with the settings.
use Prim.Native.String.{◌++◌}
use market_place.Base.{ℕ, ◌+◌, String, List, [], ◌∷◌, if◌then◌else◌, ltb}
use market_place.Base.Decimal.{digits}

pub record StorageEnv : Type 0 where
  pub cloudinary_cloud_name : String
  pub cloudinary_api_key : String
  pub cloudinary_api_secret : String
  pub storage_upload_ttl_seconds : ℕ
  -- createHash('sha1').update(…).digest('hex')
  pub sha1_hex : String → String
  -- new Date(1000 * …).toISOString()
  pub iso_string : ℕ → String
  -- randomBytes(4).toString('hex') of the n-th draw
  pub random_hex : ℕ → String

pub data UploadMethod : Type 0 where
  put post : UploadMethod

-- UploadIntent; Cloudinary's has fields and no headers
pub record UploadIntent : Type 0 where
  pub method : UploadMethod
  pub url : String
  pub fields : List (String × String)
  pub expires_at : String

-- `key=value` of every parameter, joined by `&`
unfoldable pub join_params : List (String × String) → String
join_params [] = ""
join_params ((key, value) ∷ []) = key ++ ("=" ++ value)
join_params ((key, value) ∷ p ∷ ps) = key ++ ("=" ++ (value ++ ("&" ++ join_params (p ∷ ps))))

-- the parameters in the order of their keys
unfoldable pub sign_params : StorageEnv → List (String × String) → String
sign_params env params = env.sha1_hex (join_params params ++ env.cloudinary_api_secret)

-- Math.max(1, n)
abbrev at_least_one : ℕ → ℕ
at_least_one n = if ltb n 1 then 1 else n

unfoldable pub sign_upload : StorageEnv → String → ℕ → ℕ → UploadIntent
sign_upload env object_key expires_in_seconds now =
    let signature = sign_params env (("public_id", object_key) ∷ ("timestamp", digits now) ∷ []) in
    record {
      method = post;
      url = "https://api.cloudinary.com/v1_1/" ++ (env.cloudinary_cloud_name ++ "/auto/upload");
      fields =
          ("api_key", env.cloudinary_api_key)
          ∷ ("public_id", object_key)
          ∷ ("timestamp", digits now)
          ∷ ("signature", signature)
          ∷ [];
      expires_at = env.iso_string (now + at_least_one expires_in_seconds);
    }
