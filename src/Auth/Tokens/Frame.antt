-- ===== src/Auth/Tokens/Frame.antt =====
-- What issuing tokens does to the tables.
use market_place.Base.{
  ℕ, ◌+◌, ◌≡◌, String, Bool, true, some, List, [], ◌∷◌, find?, any, ◌==◌, arith,
}
use market_place.Store.{World, Redis, ok, User}
use market_place.Auth.Env.{Env}
use market_place.Auth.StateStore.{upsert_refresh_token}
use market_place.Auth.StateStore.Frame.{save_refresh_token-frame}
use market_place.Auth.Tokens.{token_pair, generate_tokens, parse_ttl_seconds}

-- A user that a query found is a row of the table.
pub known_of_find? :
    (p : User → Bool) (users : List User) {u : User}
    → find? p users ≡ some u
    → any (λ (x : User). x.id == u.id) users ≡ true
unfolding find? any
known_of_find? p [] h = cc
known_of_find? p (x ∷ users) {u} h = ground (arith, known_of_find? p users {u = u})

module _ (env : Env) where
  -- For a known user the tokens are issued, and the new token id is stored.
  pub generate_tokens-frame :
      (user_id : ℕ) (phone : String) (is_admin : Bool) (version : ℕ) (w : World)
      → any (λ (u : User). u.id == user_id) w.db.users ≡ true
      → (r : Redis) × (generate_tokens env user_id phone is_admin version w ≡ (
        ok (token_pair env w.now user_id phone is_admin version (env.random_hex w.draws)),
        record w {
          draws = w.draws + 1;
          redis = r;
          db = record w.db {
            refresh_tokens =
                upsert_refresh_token
                  (env.random_hex w.draws)
                  user_id
                  (w.now + parse_ttl_seconds env.jwt_refresh_ttl)
                  w.db.refresh_tokens;
          };
        },
      ))
  unfolding generate_tokens
  generate_tokens-frame user_id phone is_admin version w known =
      let w' : World = record w { draws = w.draws + 1 } in
      let (r, e) =
        save_refresh_token-frame (env.random_hex w.draws) user_id
          (parse_ttl_seconds env.jwt_refresh_ttl) w' known in
      (r, rw e)
