-- ===== src/Logging/Redaction.antt =====
-- Nothing that stands under a sensitive key reaches the log.
use market_place.Base.{
  ◌≡◌, ◌∙◌, sym, refl, ap, ℕ, zero, suc, String, Option, inl, inr, Bool-cases, if◌then◌else◌,
}
use market_place.Base.Json.{
  Json, null, boolean, number, other_number, text, array, object, Items, nil, cons, Fields, end,
  field, count_items,
}
use market_place.Logging.Logger.{LogConfig, LoggedRequest, log_request, request_started}
use market_place.Logging.Sanitize.{
  is_sensitive, sanitize, sanitize_items, sanitize_fields, sanitize_for_log,
}

-- the value without what stands under sensitive keys, at any depth
unfoldable mutual
  pub erase : Json → Json
  erase (array vs) = array (erase_items vs)
  erase (object fs) = object (erase_fields fs)
  erase null = null
  erase (boolean b) = boolean b
  erase (number n) = number n
  erase (other_number s) = other_number s
  erase (text s) = text s

  pub erase_items : Items → Items
  erase_items nil = nil
  erase_items (cons v vs) = cons (erase v) (erase_items vs)

  pub erase_fields : Fields → Fields
  erase_fields end = end
  erase_fields (field k v fs) =
      let kept = erase v in field k (if is_sensitive k then null else kept) (erase_fields fs)

count_items-erase_items : (vs : Items) → count_items (erase_items vs) ≡ count_items vs
unfolding count_items erase_items
count_items-erase_items nil = refl
count_items-erase_items (cons v vs) = ap suc (count_items-erase_items vs)

mutual
  unfolding erase sanitize

  sanitize-erase : (depth : ℕ) (v : Json) → sanitize depth (erase v) ≡ sanitize depth v
  sanitize-erase depth (array vs) =
      rw (sanitize_items-erase_items (suc depth) 20 vs, count_items-erase_items vs) refl
  sanitize-erase depth (object fs) = rw (sanitize_fields-erase_fields (suc depth) 30 fs) refl
  sanitize-erase depth null = refl
  sanitize-erase depth (boolean b) = refl
  sanitize-erase depth (number n) = refl
  sanitize-erase depth (other_number s) = refl
  sanitize-erase depth (text s) = refl

  sanitize_items-erase_items :
      (depth n : ℕ) (vs : Items)
      → sanitize_items depth n (erase_items vs) ≡ sanitize_items depth n vs
  sanitize_items-erase_items depth zero vs = refl
  sanitize_items-erase_items depth (suc n) nil = refl
  sanitize_items-erase_items depth (suc n) (cons v vs) =
      rw (sanitize-erase depth v, sanitize_items-erase_items depth n vs) refl

  sanitize_fields-erase_fields :
      (depth n : ℕ) (fs : Fields)
      → sanitize_fields depth n (erase_fields fs) ≡ sanitize_fields depth n fs
  sanitize_fields-erase_fields depth zero fs = refl
  sanitize_fields-erase_fields depth (suc n) end = refl
  sanitize_fields-erase_fields depth (suc n) (field k v fs) = elim (Bool-cases (is_sensitive k)) [
    | inl sensitive ↦ rw (sensitive, sanitize_fields-erase_fields depth n fs) refl
    | inr plain ↦ rw (plain, sanitize-erase depth v, sanitize_fields-erase_fields depth n fs) refl
  ]

-- The logged form of a value is the same whatever stands under its sensitive keys (a key is
-- sensitive if it is password, token, authorization, secret, otp, refreshtoken or accesstoken, in
-- any case and with `_` and `-` anywhere), at any depth.
pub sanitize_for_log-redacts :
    (u v : Json) → erase u ≡ erase v → sanitize_for_log u ≡ sanitize_for_log v
unfolding sanitize_for_log
sanitize_for_log-redacts u v same =
    sym (sanitize-erase 0 u) ∙ (ap (sanitize 0) same ∙ sanitize-erase 0 v)

-- The line that the log gets for a request is the same whatever the body holds under sensitive keys.
pub log_request-redacts :
    (config : LogConfig) (context : Option String) (request : LoggedRequest) (body : Json)
    → erase body ≡ erase request.body
    → log_request config context (record request { body = body })
      ≡ log_request config context request
unfolding log_request request_started
log_request-redacts config context request body same =
    rw (sanitize_for_log-redacts body request.body same) refl
