-- ===== src/Store/Tables.antt =====
-- The tables of db/schema.sql, with the columns that the services read or write. A table is the
-- list of its rows, the latest insert first. Times are counted in seconds.
use market_place.Base.{ℕ, String, Bool, Option, List}

-- user_status
pub data UserStatus : Type 0 where
  active paused banned : UserStatus

pub record User : Type 0 where
  pub id : ℕ
  pub name : String
  pub phone : String
  pub password_hash : String
  pub avatar_file_id : Option ℕ
  pub contact_info : Option String
  pub status : UserStatus
  pub is_admin : Bool
  pub token_version : ℕ
  pub deleted_at : Option ℕ

pub data OtpPurpose : Type 0 where
  registration password_reset : OtpPurpose

-- auth_otps
pub record Otp : Type 0 where
  pub id : ℕ
  pub user_id : Option ℕ
  pub phone : String
  pub code_hash : String
  pub salt : String
  pub purpose : OtpPurpose
  pub expires_at : ℕ
  pub used_at : Option ℕ
  pub created_at : ℕ

-- auth_otp_attempts
pub record OtpAttempts : Type 0 where
  pub phone : String
  pub purpose : OtpPurpose
  pub attempts : ℕ
  pub expires_at : ℕ

-- auth_refresh_tokens
pub record RefreshToken : Type 0 where
  pub jti : String
  pub user_id : ℕ
  pub expires_at : ℕ
  pub revoked_at : Option ℕ

-- pending_registrations
pub record Pending : Type 0 where
  pub id : ℕ
  pub phone : String
  pub name : String
  pub password_hash : String
  pub expires_at : ℕ

-- file_status and file_purpose
pub data FileStatus : Type 0 where
  pending uploaded failed deleted : FileStatus

pub data FilePurpose : Type 0 where
  avatar product_image chat_attachment document : FilePurpose

-- the values of files.owner_type
pub data OwnerType : Type 0 where
  user product message : OwnerType

pub record File : Type 0 where
  pub id : ℕ
  pub uploader_user_id : Option ℕ
  pub owner_type : OwnerType
  pub owner_id : Option ℕ
  pub purpose : FilePurpose
  pub object_key : String
  pub mime_type : Option String
  pub checksum_sha256 : Option String
  pub status : FileStatus
  pub uploaded_at : Option ℕ

pub record Category : Type 0 where
  pub id : ℕ
  pub parent_id : Option ℕ
  pub name : String

-- product_status
pub data ProductStatus : Type 0 where
  available sold archived : ProductStatus

-- `price` in hundredths, as NUMERIC(12,2) keeps it
pub record Product : Type 0 where
  pub id : ℕ
  pub owner_id : ℕ
  pub category : String
  pub subcategory : Option String
  pub name : String
  pub description : String
  pub price : ℕ
  pub city : String
  pub address_text : String
  pub details : Option String
  pub status : ProductStatus
  pub is_negotiable : Bool
  pub preferred_contact_method : String
  pub deleted_at : Option ℕ

pub record ProductImage : Type 0 where
  pub product_id : ℕ
  pub file_id : ℕ
  pub object_key : String
  pub sort_order : ℕ

pub record Conversation : Type 0 where
  pub id : ℕ
  pub user_a_id : ℕ
  pub user_b_id : ℕ
  pub product_id : Option ℕ
  pub last_message_id : Option ℕ
  pub created_at : ℕ

pub record Message : Type 0 where
  pub id : ℕ
  pub conversation_id : ℕ
  pub sender_id : ℕ
  pub message_text : String
  pub sent_at : ℕ
  pub read_at : Option ℕ

-- user_ratings
pub record Rating : Type 0 where
  pub id : ℕ
  pub rater_id : ℕ
  pub rated_user_id : ℕ
  pub rating_value : ℕ
  pub comment : Option String

-- user_favorites
pub record Favorite : Type 0 where
  pub user_id : ℕ
  pub product_id : ℕ

-- user_blocks
pub record UserBlock : Type 0 where
  pub blocker_id : ℕ
  pub blocked_id : ℕ

-- report_status
pub data ReportStatus : Type 0 where
  open_report reviewing resolved rejected : ReportStatus

-- user_reports
pub record Report : Type 0 where
  pub id : ℕ
  pub reporter_id : ℕ
  pub reported_user_id : ℕ
  pub reason : String
  pub status : ReportStatus
  pub reviewed_by : Option ℕ
  pub reviewed_at : Option ℕ

-- admin_warnings
pub record Warning : Type 0 where
  pub id : ℕ
  pub admin_id : ℕ
  pub target_user_id : ℕ
  pub message : String

-- admin_audit_logs; `action` as the services spell it
pub record AuditLog : Type 0 where
  pub actor_id : ℕ
  pub action : String
  pub target_type : String
  pub target_id : Option ℕ

pub record Db : Type 0 where
  pub users : List User
  pub otps : List Otp
  pub otp_attempts : List OtpAttempts
  pub refresh_tokens : List RefreshToken
  pub pendings : List Pending
  pub files : List File
  pub categories : List Category
  pub products : List Product
  pub product_images : List ProductImage
  pub conversations : List Conversation
  pub messages : List Message
  pub ratings : List Rating
  pub favorites : List Favorite
  pub blocks : List UserBlock
  pub reports : List Report
  pub warnings : List Warning
  pub audit_logs : List AuditLog
