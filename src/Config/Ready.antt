-- ===== src/Config/Ready.antt =====
-- With which settings the service starts.
use market_place.Base.{
  ◌≡◌, refl, String, Bool, true, false, Option, none, some, ◌&&◌, ◌||◌, not, str_eq, Bool-cases,
  inl, inr,
}
use market_place.Base.Text.{is_empty}
use market_place.Config.Cors.{
  Loaded, loaded, failed, UrlParser, CorsPolicy, build_http_cors_options,
}
use market_place.Config.Policy.{IfLoaded, is_safe, parse_cors_origins-is_safe}
use market_place.Config.Startup.{
  Environment, AppConfig, is_set, required, demand, Secrets, node_env_of, otp_provider_of,
  build_config, load_config, ◌>>=◌,
}

-- No secret is empty, the provider of codes is one of the two and has its keys, and the origins are
-- safe.
pub record IsReady (c : AppConfig) : Type 0 where
  pub secrets_set :
      (not (is_empty c.database_url)
        && not (is_empty c.jwt_access_secret)
        && not (is_empty c.jwt_refresh_secret)
        && not (is_empty c.storage_signing_secret)
        && not (is_empty c.otp_signing_secret)
        && not (is_empty c.cloudinary_cloud_name)
        && not (is_empty c.cloudinary_api_key)
        && not (is_empty c.cloudinary_api_secret))
      ≡ true
  pub provider_known : (str_eq c.otp_provider "console" || str_eq c.otp_provider "akedly") ≡ true
  pub akedly_key : (not (str_eq c.otp_provider "akedly") || is_set c.akedly_api_key) ≡ true
  pub akedly_pipeline : (not (str_eq c.otp_provider "akedly") || is_set c.akedly_pipeline_id) ≡ true
  pub origins_safe : is_safe c.node_env (build_http_cors_options c.cors) ≡ true

abbrev AllSet : Secrets → Type 0
AllSet s =
    (not (is_empty s.database_url)
      && not (is_empty s.jwt_access_secret)
      && not (is_empty s.jwt_refresh_secret)
      && not (is_empty s.storage_signing_secret)
      && not (is_empty s.otp_signing_secret)
      && not (is_empty s.cloudinary_cloud_name)
      && not (is_empty s.cloudinary_api_key)
      && not (is_empty s.cloudinary_api_secret))
    ≡ true

-- What holds after each check that passes holds of what is loaded.
required-IfLoaded :
    {A : Type 0} (P : A → Type 0) (value : Option String) (message : String) (f : String → Loaded A)
    → ((s : String) → is_empty s ≡ false → IfLoaded P (f s))
    → IfLoaded P (required value message >>= f)
unfolding ◌>>=◌ required
required-IfLoaded P none message f h = tt
required-IfLoaded P (some s) message f h = elim (Bool-cases (is_empty s)) [
  | inl missing ↦ rw missing tt
  | inr there ↦ rw there (h s there)
]

demand-IfLoaded :
    {A : Type 0} (P : A → Type 0) (passes : Bool) (message : String) (f : Unit {0} → Loaded A)
    → (passes ≡ true → IfLoaded P (f tt))
    → IfLoaded P (demand passes message >>= f)
unfolding ◌>>=◌ demand
demand-IfLoaded P true message f h = h refl
demand-IfLoaded P false message f h = tt

loaded-IfLoaded :
    {A B : Type 0} (P : A → Type 0) (m : Loaded B) (f : B → Loaded A)
    → ((b : B) → m ≡ loaded b → IfLoaded P (f b))
    → IfLoaded P (m >>= f)
unfolding ◌>>=◌
loaded-IfLoaded P (loaded b) f h = h b refl
loaded-IfLoaded P (failed message) f h = tt

built :
    (env : Environment) (secrets : Secrets) (cors : CorsPolicy)
    → AllSet secrets
    → (str_eq (otp_provider_of env) "console" || str_eq (otp_provider_of env) "akedly") ≡ true
    → (not (str_eq (otp_provider_of env) "akedly") || is_set (env "AKEDLY_API_KEY")) ≡ true
    → (not (str_eq (otp_provider_of env) "akedly") || is_set (env "AKEDLY_PIPELINE_ID")) ≡ true
    → is_safe (node_env_of env) (build_http_cors_options cors) ≡ true
    → IsReady (build_config env secrets cors)
built env secrets cors all_set known key pipeline safe = record {
  secrets_set = all_set;
  provider_known = known;
  akedly_key = key;
  akedly_pipeline = pipeline;
  origins_safe = safe;
}

ready : (parse_url : UrlParser) (env : Environment) → IfLoaded IsReady (load_config parse_url env)
unfolding load_config
ready parse_url env = required-IfLoaded IsReady _ _ _ (λ database_url h₁.
    required-IfLoaded IsReady _ _ _ (λ jwt_access_secret h₂.
      required-IfLoaded IsReady _ _ _ (λ jwt_refresh_secret h₃.
        required-IfLoaded IsReady _ _ _ (λ storage_signing_secret h₄.
          required-IfLoaded IsReady _ _ _ (λ otp_signing_secret h₅.
            demand-IfLoaded IsReady _ _ _ (λ provider_known.
              demand-IfLoaded IsReady _ _ _ (λ storage_known.
                demand-IfLoaded IsReady _ _ _ (λ akedly_key.
                  demand-IfLoaded IsReady _ _ _ (λ akedly_pipeline.
                    required-IfLoaded IsReady _ _ _ (λ cloud_name h₆.
                      required-IfLoaded IsReady _ _ _ (λ cloud_key h₇.
                        required-IfLoaded IsReady _ _ _ (λ cloud_secret h₈.
                          loaded-IfLoaded IsReady _ _ (λ policy chosen.
                            built env
                              (record {
                                database_url = database_url;
                                jwt_access_secret = jwt_access_secret;
                                jwt_refresh_secret = jwt_refresh_secret;
                                storage_signing_secret = storage_signing_secret;
                                otp_signing_secret = otp_signing_secret;
                                cloudinary_cloud_name = cloud_name;
                                cloudinary_api_key = cloud_key;
                                cloudinary_api_secret = cloud_secret;
                              })
                              policy (rw (h₁, h₂, h₃, h₄, h₅, h₆, h₇, h₈) refl) provider_known
                              akedly_key akedly_pipeline
                              (parse_cors_origins-is_safe parse_url (env "CORS_ORIGINS")
                                (node_env_of env) policy chosen).0)))))))))))))

-- If the settings load, no secret is empty, the provider of codes is `console`, or `akedly` with its
-- two keys set, and the allowed origins are safe: any origin only outside production and without
-- credentials, else listed ones without the wildcard.
pub load_config-IsReady :
    (parse_url : UrlParser) (env : Environment) (c : AppConfig)
    → load_config parse_url env ≡ loaded c
    → IsReady c
load_config-IsReady parse_url env c h = rw h at (ready parse_url env)
