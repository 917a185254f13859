-- ===== src/Auth/Session/Access.antt =====
-- When `login` and `refresh` give tokens.
use market_place.Base.{
  ℕ, ◌≡◌, refl, String, true, Option, none, some, find?, arith, Option-cases, Bool-cases, inl, inr,
  ◌↔◌, delete_where,
}
use market_place.Store.{World, Result, ok, err, User, RefreshToken, active}
use market_place.Auth.Env.{Env, Claims}
use market_place.Auth.StateStore.{live_token_of, owner_of}
use market_place.Auth.StateStore.Frame.{consume_refresh_token-frame}
use market_place.Auth.Tokens.{TokenPair}
use market_place.Auth.Tokens.Frame.{generate_tokens-frame, known_of_find?}
use market_place.Auth.Session.{
  account_id, account_of, present, login, refresh, renew_session, may_refresh, is_stored_sub,
  is_active,
}

-- What a successful `refresh` rests on.
pub record MayRenew (env : Env) (token : String) (w : World) : Type 0 where
  pub payload : Claims
  pub jti : String
  pub stored : RefreshToken
  pub user : User
  pub verified : env.jwt_verify env.jwt_refresh_secret w.now token ≡ some payload
  pub has_jti : present payload.jti ≡ some jti
  pub live : find? (live_token_of jti w.now) w.db.refresh_tokens ≡ some stored
  pub owned : stored.user_id ≡ payload.sub
  pub account : find? (account_id payload.sub) w.db.users ≡ some user
  pub is_active : user.status ≡ active
  pub same_version : user.token_version ≡ payload.token_version

renew_session-ok :
    (env : Env) (sub version : ℕ) (w : World) {pair : TokenPair}
    → (renew_session env sub version w).0 ≡ ok pair
    → (u : User) × (find? (account_id sub) w.db.users ≡ some u) × (may_refresh version u ≡ true)
unfolding renew_session
renew_session-ok env sub version w h = elim (Option-cases (find? (account_id sub) w.db.users)) [
  | inl missing ↦ ground (arith, missing)
  | inr (u, found) ↦ (u, found, ground (arith, found))
]

active_of :
    (u : User) (version : ℕ)
    → may_refresh version u ≡ true
    → (u.status ≡ active) × (u.token_version ≡ version)
active_of u version h = ground arith

stored_sub :
    (found : Option RefreshToken) (sub : ℕ)
    → is_stored_sub (owner_of found) sub ≡ true
    → (t : RefreshToken) × (found ≡ some t) × (t.user_id ≡ sub)
stored_sub none sub h = cc
stored_sub (some t) sub h = (t, refl, ground arith)

-- `refresh` gives tokens only for a token that verifies, whose id is stored, unrevoked and
-- unexpired for the very subject of the token, and whose account exists, is active and has the
-- token's version.
pub refresh-MayRenew :
    (env : Env) (token : String) (w : World) {pair : TokenPair}
    → (refresh env token w).0 ≡ ok pair
    → MayRenew env token w
unfolding refresh
refresh-MayRenew env token w h =
    elim (Option-cases (env.jwt_verify env.jwt_refresh_secret w.now token)) [
      | inl bad ↦ absurd (ground (arith, bad))
      | inr (payload, verified) ↦ elim (Option-cases (present payload.jti)) [
        | inl no_jti ↦ absurd (ground (arith, verified, no_jti))
        | inr (jti, has_jti) ↦
            let (r, e) = consume_refresh_token-frame jti w in
            let w1 : World = record w {
              redis = r;
              db = record w.db {
                refresh_tokens = delete_where (live_token_of jti w.now) w.db.refresh_tokens;
              };
            } in
            let h1 = rw (verified, has_jti, e) at h in
            elim (Bool-cases (
              is_stored_sub (owner_of (find? (live_token_of jti w.now) w.db.refresh_tokens))
                payload.sub)) [
                  | inr other ↦ absurd (ground (arith, other))
                  | inl ours ↦
                      let (t, live, owned) = stored_sub _ payload.sub ours in
                      let (u, account, may) =
                        renew_session-ok env payload.sub payload.token_version w1 (rw ours at h1) in
                      record {
                        payload = payload;
                        jti = jti;
                        stored = t;
                        user = u;
                        verified = verified;
                        has_jti = has_jti;
                        live = live;
                        owned = owned;
                        account = account;
                        is_active = (active_of u payload.token_version may).0;
                        same_version = (active_of u payload.token_version may).1;
                      }
                ]
      ]
    ]

-- When the account that a login names may have tokens.
abbrev pub GoodLogin : Env → String → String → Option User → Type 0
GoodLogin env phone password none = ⊥
GoodLogin env phone password (some u) =
    (u.status ≡ active) × (env.bcrypt_compare password u.password_hash ≡ true)

abbrev pub Succeeds {ℓ} : {A : Type ℓ} → Result A → Type 0
Succeeds (ok _) = Unit
Succeeds (err _) = ⊥

GoodLogin-Succeeds :
    (env : Env) (phone password : String) (w : World) {u : User}
    → find? (account_of phone) w.db.users ≡ some u
    → GoodLogin env phone password (some u)
    → Succeeds (login env phone password w).0
unfolding login
GoodLogin-Succeeds env phone password w {u} found (is_active, matches) =
    let known = known_of_find? (account_of phone) w.db.users found in
    let (r, e) = generate_tokens-frame env u.id u.phone u.is_admin u.token_version w known in
    rw (found, is_active, matches, e) tt

-- `login` gives tokens exactly when the phone has an account that is not deleted, the account is
-- active and the password matches its hash.
pub login_iff :
    (env : Env) (phone password : String) (w : World)
    → Succeeds (login env phone password w).0
      ↔ GoodLogin env phone password (find? (account_of phone) w.db.users)
unfolding login
login_iff env phone password w = elim (Option-cases (find? (account_of phone) w.db.users)) [
  | inl missing ↦ rw missing ((λ h. h), (λ h. h))
  | inr (u, found) ↦ rw found (
    (λ h. ground (arith, found)),
    (λ g. let s = GoodLogin-Succeeds env phone password w found g in rw found at s),
  )
]
