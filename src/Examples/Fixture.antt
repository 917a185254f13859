-- ===== src/Examples/Fixture.antt =====
-- Sample tables: Ann sells a bike, Bob is an admin and talks with her about it.
use Prim.Native.Nat.{◌^◌}
use market_place.Base.{
  ℕ, ◌<◌, ◌≡◌, refl, true, false, none, some, [], ◌∷◌, arith, leb, if◌then◌else◌, Bool-cases, inl,
  inr,
}
use market_place.Base.Decimal.{digits, digits_from, parse_digits}
use market_place.Base.DecimalText.{to_positive_int-digits}
use market_place.Base.Double.{whole_double, nearest_double}
use market_place.Base.JsValue.{JsValue, to_positive_int, whole_number}
use market_place.Store.{
  World, User, active, Otp, registration, password_reset, RefreshToken, Pending, File,
  product_image, uploaded, user, Product, available, Conversation, Message, Rating,
}
use market_place.Auth.Env.{Claims}
use market_place.Auth.Strategy.{JwtPayload}
use market_place.Chat.Guards.{Driver}

abbrev pub ann : User
ann = record {
  id = 1;
  name = "Ann";
  phone = "+201";
  password_hash = "spring";
  avatar_file_id = none;
  contact_info = none;
  status = active;
  is_admin = false;
  token_version = 0;
  deleted_at = none;
}

abbrev pub bob : User
bob = record {
  id = 2;
  name = "Bob";
  phone = "+202";
  password_hash = "summer";
  avatar_file_id = none;
  contact_info = none;
  status = active;
  is_admin = true;
  token_version = 3;
  deleted_at = none;
}

abbrev pub carl_pending : Pending
carl_pending = record {
  id = 8;
  phone = "+203";
  name = "Carl";
  password_hash = "autumn";
  expires_at = 900;
}

-- the codes of Carl's registration and of a reset of Ann's password
abbrev pub carl_otp : Otp
carl_otp = record {
  id = 5;
  user_id = none;
  phone = "+203";
  code_hash = "000000:salt";
  salt = "salt";
  purpose = registration;
  expires_at = 400;
  used_at = none;
  created_at = 90;
}

abbrev pub ann_otp : Otp
ann_otp = record {
  id = 6;
  user_id = some 1;
  phone = "+201";
  code_hash = "000000:salt";
  salt = "salt";
  purpose = password_reset;
  expires_at = 400;
  used_at = none;
  created_at = 95;
}

abbrev pub ann_token : RefreshToken
ann_token = record { jti = "ann-token"; user_id = 1; expires_at = 1000; revoked_at = none }

abbrev pub ann_claims : Claims
ann_claims = record {
  sub = 1;
  phone = "+201";
  is_admin = false;
  token_version = 0;
  jti = some "ann-token";
}

abbrev pub ann_payload : JwtPayload
ann_payload = record {
  sub = JsValue.number 1;
  phone = "+201";
  is_admin = false;
  token_version = some 0;
}

abbrev pub photo : File
photo = record {
  id = 30;
  uploader_user_id = some 1;
  owner_type = user;
  owner_id = some 1;
  purpose = product_image;
  object_key = "photo";
  mime_type = none;
  checksum_sha256 = none;
  status = uploaded;
  uploaded_at = some 50;
}

abbrev pub bike : Product
bike = record {
  id = 20;
  owner_id = 1;
  category = "vehicles";
  subcategory = some "bicycles";
  name = "Bike";
  description = "A bike";
  price = 10000;
  city = "Cairo";
  address_text = "1 Street";
  details = none;
  status = available;
  is_negotiable = false;
  preferred_contact_method = "both";
  deleted_at = none;
}

abbrev pub talk : Conversation
talk = record {
  id = 40;
  user_a_id = 1;
  user_b_id = 2;
  product_id = some 20;
  last_message_id = none;
  created_at = 60;
}

abbrev pub hello : Message
hello = record {
  id = 50;
  conversation_id = 40;
  sender_id = 1;
  message_text = "Hello";
  sent_at = 70;
  read_at = none;
}

abbrev pub old_rating : Rating
old_rating = record { id = 60; rater_id = 2; rated_user_id = 1; rating_value = 3; comment = none }

abbrev pub shop : World
shop = record {
  db = record {
    users = ann ∷ bob ∷ [];
    otps = ann_otp ∷ carl_otp ∷ [];
    otp_attempts = [];
    refresh_tokens = ann_token ∷ [];
    pendings = carl_pending ∷ [];
    files = photo ∷ [];
    categories = [];
    products = bike ∷ [];
    product_images =
        record { product_id = 20; file_id = 29; object_key = "old"; sort_order = 0 } ∷ [];
    conversations = talk ∷ [];
    messages = hello ∷ [];
    ratings = old_rating ∷ [];
    favorites = [];
    blocks = [];
    reports = [];
    warnings = [];
    audit_logs = [];
  };
  redis = record { enabled = true; reachable = false; entries = [] };
  now = 100;
  next_id = 70;
  draws = 4;
}

-- a driver that hands out BIGINT as numbers
pub number-reads : (n : ℕ) → 0 < n → to_positive_int (JsValue.number n) ≡ some n
unfolding to_positive_int
number-reads n positive = ground arith

pub number-zero : to_positive_int (JsValue.number 0) ≡ none
unfolding to_positive_int
number-zero = refl

abbrev pub number_driver : Driver
number_driver = record { int8 = JsValue.number; int8_reads = number-reads; int8_zero = number-zero }

-- a driver that hands out BIGINT as its digits, as far as these are read exactly
abbrev pub digits_or_number : ℕ → JsValue
digits_or_number n = if leb n (2 ^ 53) then JsValue.text (digits n) else JsValue.number n

pub digits_or_number-reads : (n : ℕ) → 0 < n → to_positive_int (digits_or_number n) ≡ some n
digits_or_number-reads n positive = elim (Bool-cases (leb n (2 ^ 53))) [
  | inl exact ↦ rw exact (to_positive_int-digits n positive (ground arith))
  | inr long ↦ rw long (number-reads n positive)
]

pub digits_or_number-zero : to_positive_int (digits_or_number 0) ≡ none
unfolding to_positive_int digits digits_from whole_number parse_digits whole_double nearest_double
digits_or_number-zero = refl

abbrev pub text_driver : Driver
text_driver = record {
  int8 = digits_or_number;
  int8_reads = digits_or_number-reads;
  int8_zero = digits_or_number-zero;
}
