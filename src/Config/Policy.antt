-- ===== src/Config/Policy.antt =====
-- Which origins a browser may call the service from.
use market_place.Base.{
  ◌≡◌, refl, arith, String, Bool, true, false, Option, List, [], ◌∷◌, ◌&&◌, ◌||◌, not, any, inl,
  inr, Bool-cases,
}
use market_place.Config.Cors.{
  Loaded, loaded, failed, CorsPolicy, UrlParser, is_star, is_production, is_none_listed,
  choose_policy, parse_cors_origins, listed_values, is_valid_cors_origin, Origin, any_origin,
  origins, CorsOptions, build_http_cors_options, build_socket_cors_options,
}

abbrev is_any : Origin → Bool
is_any any_origin = true
is_any (origins os) = false

-- the wildcard is not among the origins, and there are some
abbrev is_specific : Origin → Bool
is_specific any_origin = false
is_specific (origins os) = not (any is_star os) && not (is_none_listed os)

-- Any origin may call without credentials and outside production; else the origins are listed, and
-- none of them is the wildcard.
abbrev pub is_safe : String → CorsOptions → Bool
is_safe node_env o =
    (is_any o.origin && not o.credentials && not (is_production node_env)) || is_specific o.origin

-- what holds of a value, if one is loaded
abbrev pub IfLoaded : {A : Type 0} → (A → Type 0) → Loaded A → Type 0
IfLoaded P (loaded a) = P a
IfLoaded P (failed message) = Unit

is_none_listed-any : (os : List String) → is_none_listed os ≡ true → any is_star os ≡ false
unfolding any
is_none_listed-any [] h = refl
is_none_listed-any (o ∷ os) h = ground (arith, h)

module _ (parse_url : UrlParser) (node_env : String) (os : List String) where
  abbrev is_invalid : String → Bool
  is_invalid o = not (is_valid_cors_origin parse_url o)

  abbrev ChoiceIsSafe : Type 0
  ChoiceIsSafe =
      IfLoaded (λ policy. is_safe node_env (build_http_cors_options policy) ≡ true)
        (choose_policy parse_url node_env os)

  none_listed-is_safe : is_none_listed os ≡ true → ChoiceIsSafe
  unfolding choose_policy build_http_cors_options any
  none_listed-is_safe none_listed =
      let no_star = is_none_listed-any os none_listed in
      elim (Bool-cases (is_production node_env)) [
        | inl production ↦ rw (production, none_listed) tt
        | inr development ↦ elim (Bool-cases (any is_invalid os)) [
          | inl invalid ↦ rw (development, none_listed, no_star, invalid) tt
          | inr valid ↦ rw (development, none_listed, no_star, valid) refl
        ]
      ]

  starred-is_safe : is_none_listed os ≡ false → any is_star os ≡ true → ChoiceIsSafe
  unfolding choose_policy build_http_cors_options
  starred-is_safe some_listed star = elim (Bool-cases (any (λ o. not (is_star o)) os)) [
    | inl mixed ↦ elim (Bool-cases (is_production node_env)) [
      | inl production ↦ rw (production, some_listed, star, mixed) tt
      | inr development ↦ rw (development, some_listed, star, mixed) tt
    ]
    | inr pure ↦ elim (Bool-cases (is_production node_env)) [
      | inl production ↦ rw (production, some_listed, star, pure) tt
      | inr development ↦ elim (Bool-cases (any is_invalid os)) [
        | inl invalid ↦ rw (development, some_listed, star, pure, invalid) tt
        | inr valid ↦ rw (development, some_listed, star, pure, valid) refl
      ]
    ]
  ]

  unstarred-is_safe : is_none_listed os ≡ false → any is_star os ≡ false → ChoiceIsSafe
  unfolding choose_policy build_http_cors_options
  unstarred-is_safe some_listed no_star = elim (Bool-cases (is_production node_env)) [
    | inl production ↦ elim (Bool-cases (any is_invalid os)) [
      | inl invalid ↦ rw (production, some_listed, no_star, invalid) tt
      | inr valid ↦ rw (production, some_listed, no_star, valid, no_star, some_listed) refl
    ]
    | inr development ↦ elim (Bool-cases (any is_invalid os)) [
      | inl invalid ↦ rw (development, some_listed, no_star, invalid) tt
      | inr valid ↦ rw (development, some_listed, no_star, valid, no_star, some_listed) refl
    ]
  ]

  choose_policy-is_safe : ChoiceIsSafe
  choose_policy-is_safe = elim (Bool-cases (is_none_listed os)) [
    | inl none_listed ↦ none_listed-is_safe none_listed
    | inr some_listed ↦ elim (Bool-cases (any is_star os)) [
      | inl star ↦ starred-is_safe some_listed star
      | inr no_star ↦ unstarred-is_safe some_listed no_star
    ]
  ]

-- If the CORS settings are accepted, either any origin may call, outside production and without
-- credentials, or the allowed origins are listed, at least one, and none is the wildcard; the chat
-- sockets are opened under the same options.
pub parse_cors_origins-is_safe :
    (parse_url : UrlParser) (cors_value : Option String) (node_env : String) (policy : CorsPolicy)
    → parse_cors_origins parse_url cors_value node_env ≡ loaded policy
    → (is_safe node_env (build_http_cors_options policy) ≡ true)
      × (build_socket_cors_options policy ≡ build_http_cors_options policy)
unfolding parse_cors_origins build_http_cors_options build_socket_cors_options
parse_cors_origins-is_safe parse_url cors_value node_env policy h =
    (rw h at (choose_policy-is_safe parse_url node_env (listed_values cors_value)), refl)
