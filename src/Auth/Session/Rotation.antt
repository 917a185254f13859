-- ===== src/Auth/Session/Rotation.antt =====
-- Refresh tokens are spent once: `refresh` and `logout` end the token that they are given.
use market_place.Base.{
  ℕ, ◌≤◌, ◌≡◌, ◌≢◌, refl, String, none, some, List, [], ◌∷◌, find?, delete_where, update_where,
  arith, str_eq_iff, Bool-cases, Option-cases, inl, inr,
}
use market_place.Store.{World, Result, err, RefreshToken, http, unauthorized}
use market_place.Auth.Env.{Env, Claims, CryptoLaws}
use market_place.Auth.StateStore.{upsert_refresh_token, live_token_of, token_of, owner_of}
use market_place.Auth.StateStore.Frame.{consume_refresh_token-frame, revoke_refresh_token-frame}
use market_place.Auth.Tokens.Frame.{generate_tokens-frame, known_of_find?}
use market_place.Auth.Tokens.{TokenPair}
use market_place.Auth.Session.{
  account_id, present, renew_session, refresh, logout, may_refresh, is_stored_sub,
}

-- no stored token with this id can be consumed from `now` on
abbrev pub IsSpent : String → ℕ → List RefreshToken → Type 0
IsSpent jti now tokens = find? (live_token_of jti now) tokens ≡ none

IsSpent-delete :
    (jti : String) (now : ℕ) (ts : List RefreshToken)
    → IsSpent jti now (delete_where (live_token_of jti now) ts)
unfolding find? delete_where
IsSpent-delete jti now [] = refl
IsSpent-delete jti now (t ∷ ts) = ground (arith, IsSpent-delete jti now ts)

IsSpent-later :
    (jti : String) (now later : ℕ) (ts : List RefreshToken)
    → now ≤ later
    → IsSpent jti now ts
    → IsSpent jti later ts
unfolding find?
IsSpent-later jti now later [] le h = refl
IsSpent-later jti now later (t ∷ ts) le h = ground (arith, IsSpent-later jti now later ts)

IsSpent-revoke :
    (jti : String) (now at : ℕ) (ts : List RefreshToken)
    → IsSpent jti now (update_where (token_of jti) (λ t. record t { revoked_at = some at }) ts)
unfolding find? update_where
IsSpent-revoke jti now at [] = refl
IsSpent-revoke jti now at (t ∷ ts) = ground (arith, IsSpent-revoke jti now at ts)

-- Storing a token under another id spends none and revives none.
IsSpent-update :
    (jti new : String) (now user_id expires : ℕ) (ts : List RefreshToken)
    → new ≢ jti
    → IsSpent jti now ts
    → IsSpent jti now (
        update_where
          (token_of new)
          (λ t. record t { user_id = user_id; expires_at = expires; revoked_at = none })
          ts)
unfolding find? update_where
IsSpent-update jti new now user_id expires [] ne h = refl
IsSpent-update jti new now user_id expires (t ∷ ts) ne h = ground (
  arith,
  str_eq_iff t.jti jti,
  str_eq_iff t.jti new,
  IsSpent-update jti new now user_id expires ts ne,
)

IsSpent-upsert :
    (jti new : String) (now user_id expires : ℕ) (ts : List RefreshToken)
    → new ≢ jti
    → IsSpent jti now ts
    → IsSpent jti now (upsert_refresh_token new user_id expires ts)
unfolding find? upsert_refresh_token
IsSpent-upsert jti new now user_id expires ts ne h =
    ground (arith, str_eq_iff new jti, IsSpent-update jti new now user_id expires ts ne h)

-- The claims of a presented refresh token, with the id that makes it one.
pub record Presented (env : Env) (token : String) (now : ℕ) (jti : String) : Type 0 where
  pub payload : Claims
  pub verified : env.jwt_verify env.jwt_refresh_secret now token ≡ some payload
  pub has_jti : present payload.jti ≡ some jti

abbrev refused : Result TokenPair
refused = err (http unauthorized "Invalid refresh token")

module _ (env : Env) where
  renew_session-refused :
      (sub version : ℕ) (w : World)
      → find? (account_id sub) w.db.users ≡ none
      → renew_session env sub version w ≡ (refused, w)
  unfolding renew_session
  renew_session-refused sub version w missing = rw missing

  renew_session-IsSpent :
      (jti : String) (now sub version : ℕ) (w : World)
      → env.random_hex w.draws ≢ jti
      → IsSpent jti now w.db.refresh_tokens
      → IsSpent jti now (renew_session env sub version w).1.db.refresh_tokens
  unfolding renew_session
  renew_session-IsSpent jti now sub version w ne spent =
      elim (Option-cases (find? (account_id sub) w.db.users)) [
        | inl missing ↦ rw missing spent
        | inr (u, found) ↦ elim (Bool-cases (may_refresh version u)) [
          | inr no_more ↦ rw (found, no_more) spent
          | inl may ↦
              let known = known_of_find? (account_id sub) w.db.users found in
              let (r, e) =
                generate_tokens-frame env u.id u.phone u.is_admin u.token_version w known in
              rw (found, may, e)
                (IsSpent-upsert jti (env.random_hex w.draws) now u.id _ w.db.refresh_tokens ne
                  spent)
        ]
      ]

module _ (env : Env) (token jti : String) where
  -- Once `refresh` has been called with a token, that token is spent, whether the call succeeds or
  -- not.
  refresh-IsSpent :
      (w : World)
      → Presented env token w.now jti
      → env.random_hex w.draws ≢ jti
      → IsSpent jti w.now (refresh env token w).1.db.refresh_tokens
  unfolding refresh
  refresh-IsSpent w p ne =
      let (r, e) = consume_refresh_token-frame jti w in
      let spent = IsSpent-delete jti w.now w.db.refresh_tokens in
      let w1 : World = record w {
        redis = r;
        db = record w.db {
          refresh_tokens = delete_where (live_token_of jti w.now) w.db.refresh_tokens;
        };
      } in
      elim (Bool-cases (
        is_stored_sub (owner_of (find? (live_token_of jti w.now) w.db.refresh_tokens))
          p.payload.sub)) [
            | inl ours ↦
                rw (p.verified, p.has_jti, e, ours)
                  (renew_session-IsSpent env jti w.now _ _ w1 ne spent)
            | inr other ↦ rw (p.verified, p.has_jti, e, other) spent
          ]

  -- A spent token is refused.
  refresh-refused :
      (w : World)
      → Presented env token w.now jti
      → IsSpent jti w.now w.db.refresh_tokens
      → (refresh env token w).0 ≡ refused
  unfolding refresh
  refresh-refused w p spent =
      let (r, e) = consume_refresh_token-frame jti w in rw (p.verified, p.has_jti, e, spent)

  -- `logout` spends the token too.
  logout-IsSpent :
      (w : World)
      → Presented env token w.now jti
      → IsSpent jti w.now (logout env token w).1.db.refresh_tokens
  unfolding logout
  logout-IsSpent w p =
      let (r, e) = revoke_refresh_token-frame jti w in
      ground (arith, p.verified, p.has_jti, e, IsSpent-revoke jti w.now w.now w.db.refresh_tokens)

  -- A token that does not verify is refused; one that does has the claims that it always had.
  refused_later :
      (w : World)
      → CryptoLaws env
      → (now : ℕ) → Presented env token now jti
      → IsSpent jti w.now w.db.refresh_tokens
      → (refresh env token w).0 ≡ refused
  unfolding refresh
  refused_later w laws now p spent =
      elim (Option-cases (env.jwt_verify env.jwt_refresh_secret w.now token)) [
        | inl expired ↦ rw expired
        | inr (d, verified) ↦
            let same =
              laws.verify_stable env.jwt_refresh_secret token now w.now p.payload d p.verified
                verified in
            unfold refresh in
            rw
              (← refresh-refused w
                (record { payload = p.payload; verified = rw same verified; has_jti = p.has_jti })
                spent)
              refl
      ]

  -- A refresh token is good for one call of `refresh`: a later call with the same token, at any later
  -- time, is refused with 401, whether the first one succeeded or not. (The id drawn for the new
  -- token must differ from the presented one.)
  pub refresh_once :
      (w : World) (later : ℕ)
      → CryptoLaws env
      → Presented env token w.now jti
      → env.random_hex w.draws ≢ jti
      → w.now ≤ later
      → (refresh env token (record (refresh env token w).1 { now = later })).0 ≡ refused
  refresh_once w later laws p ne le =
      refused_later (record (refresh env token w).1 { now = later }) laws w.now p
        (IsSpent-later jti w.now later _ le (refresh-IsSpent w p ne))

  -- After `logout` with a refresh token, `refresh` refuses that token with 401 from then on.
  pub logout-refresh :
      (w : World) (later : ℕ)
      → CryptoLaws env
      → Presented env token w.now jti
      → w.now ≤ later
      → (refresh env token (record (logout env token w).1 { now = later })).0 ≡ refused
  logout-refresh w later laws p le =
      refused_later (record (logout env token w).1 { now = later }) laws w.now p
        (IsSpent-later jti w.now later _ le (logout-IsSpent w p))
