-- ===== src/Http/Answers.antt =====
-- What every HTTP answer looks like.
use market_place.Base.{
  ◌≡◌, refl, ℕ, String, Bool, true, false, Option, some, inl, inr, Bool-cases, str_eq, get_or_else,
}
use market_place.Base.Json.{
  Json, null, boolean, number, object, Fields, end, field, get_key, has_key, get_key-set_key,
  get_key-set_key_ne,
}
use market_place.Http.Envelope.{
  is_already_enveloped, normalize_data, intercept, get_field, Exception, catch_exception,
}

envelope-is_already_enveloped :
    (success : Bool) (status : ℕ) (v : Json) (rest : Fields)
    → is_already_enveloped (
        object (
          field "success"
            (boolean success)
            (field "statusCode" (number status) (field "data" v rest))))
      ≡ true
unfolding is_already_enveloped get_key has_key
envelope-is_already_enveloped success status v rest = refl

enveloped-intercept :
    (status : Option ℕ) (payload : Json)
    → is_already_enveloped payload ≡ true
    → intercept true status payload ≡ payload
unfolding intercept
enveloped-intercept status payload h = rw h refl

intercept-is_already_enveloped :
    (status : Option ℕ) (payload : Json)
    → is_already_enveloped (intercept true status payload) ≡ true
unfolding intercept
intercept-is_already_enveloped status payload = elim (Bool-cases (is_already_enveloped payload)) [
  | inl already ↦ rw (already, already) refl
  | inr bare ↦
      rw bare
        (envelope-is_already_enveloped true (get_or_else status 200) (normalize_data payload) end)
]

-- The answer to a request is an envelope, whether its handler returns a value or throws, and another
-- pass of the interceptor leaves it as it is; after an exception `statusCode` is the HTTP status.
pub answers-are_envelopes :
    (status later : Option ℕ) (payload : Json) (timestamp url : String) (e : Exception)
    → (is_already_enveloped (intercept true status payload) ≡ true)
      × ((intercept true later (intercept true status payload) ≡ intercept true status payload)
          × ((intercept true later (catch_exception timestamp url e).1
                ≡ (catch_exception timestamp url e).1)
              × (get_field "statusCode" (catch_exception timestamp url e).1
                  ≡ some (number (catch_exception timestamp url e).0))))
unfolding catch_exception get_key
answers-are_envelopes status later payload timestamp url e =
    let enveloped = intercept-is_already_enveloped status payload in
    (
      enveloped,
      (
        enveloped-intercept later (intercept true status payload) enveloped,
        (
          enveloped-intercept later (catch_exception timestamp url e).1
              (envelope-is_already_enveloped false _ null _),
          refl,
        ),
      ),
    )

-- A handler's object with one key, whose value is an object: the data of the answer has the value
-- under that key, and under another key what the value has there.
normalize_data-keeps_both :
    (key other : String) (value : Fields)
    → str_eq key other ≡ false
    → (get_field key (normalize_data (object (field key (object value) end))) ≡ some (object value))
      × (get_field other (normalize_data (object (field key (object value) end)))
          ≡ get_key other value)
unfolding normalize_data
normalize_data-keeps_both key other value apart = (
  get_key-set_key key (object value) value,
  get_key-set_key_ne key other (object value) value apart,
)
