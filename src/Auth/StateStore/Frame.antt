-- ===== src/Auth/StateStore/Frame.antt =====
-- What the operations of AuthStateStore do to the tables, whatever Redis answers.
use market_place.Base.{
  ℕ, ◌+◌, ◌≡◌, refl, String, true, Option, none, some, find?, any, delete_where, update_where,
  if◌then◌else◌, leb, arith, ◌==◌, Bool-cases, inl, inr, Option-cases, str_eq, ltb, ◌&&◌,
}
use market_place.Base.Decimal.{digits}
use market_place.Store.{
  World, Entry, Redis, Action, ok, redis_get, redis_set, redis_del, OtpPurpose, User,
}
use market_place.Auth.StateStore.{
  try_redis_set, bump_cached_attempts, clear_otp_attempts, increment_otp_attempts, attempts_of,
  upsert_attempts, returned_attempts, save_refresh_token_jti, upsert_refresh_token,
  consume_refresh_token_jti, owner_of, live_token_of, token_of, revoke_refresh_token_jti,
  clear_otp_transaction_req_id, get_otp_transaction_req_id, saved_transaction, otp_attempts_key,
  refresh_jti_key, otp_transaction_key,
}

-- an action that changes nothing but the cache
abbrev pub OnlyCache {ℓ} : {A : Type ℓ} → Action A → Type 0
OnlyCache op = (w : World) → (r : Redis) × ((op w).1 ≡ record w { redis = r })

redis_set-OnlyCache : (k v : String) (ttl : ℕ) → OnlyCache (redis_set k v ttl)
unfolding redis_set
redis_set-OnlyCache k v ttl w = ((redis_set k v ttl w).1.redis, ground arith)

redis_del-OnlyCache : (k : String) → OnlyCache (redis_del k)
unfolding redis_del
redis_del-OnlyCache k w = ((redis_del k w).1.redis, ground arith)

try_redis_set-frame :
    (op : Action (Unit {0}))
    → OnlyCache op
    → (w : World) → (r : Redis) × (try_redis_set op w ≡ (ok tt, record w { redis = r }))
unfolding try_redis_set
try_redis_set-frame op only w = ((try_redis_set op w).1.redis, ground (arith, (only w).1))

bump_cached-OnlyCache : (k : String) (ttl : ℕ) → OnlyCache (bump_cached_attempts k ttl)
unfolding bump_cached_attempts redis_get redis_set
bump_cached-OnlyCache k ttl w = elim (Bool-cases w.redis.enabled) [
  | inl on ↦ elim (Bool-cases w.redis.reachable) [
    | inl up ↦ ((bump_cached_attempts k ttl w).1.redis, rw (on, up))
    | inr down ↦ (w.redis, rw (on, down))
  ]
  | inr off ↦ (w.redis, rw off)
]

pub clear_otp_transaction-frame :
    (phone : String) (purpose : OtpPurpose) (w : World)
    → (r : Redis) × (clear_otp_transaction_req_id phone purpose w ≡ (ok tt, record w { redis = r }))
unfolding clear_otp_transaction_req_id
clear_otp_transaction-frame phone purpose w =
    try_redis_set-frame (redis_del (otp_transaction_key phone purpose)) (redis_del-OnlyCache _) w

pub clear_otp_attempts-frame :
    (phone : String) (purpose : OtpPurpose) (w : World)
    → (r : Redis) × (clear_otp_attempts phone purpose w ≡ (
      ok tt,
      record w {
        redis = r;
        db = record w.db {
          otp_attempts = delete_where (attempts_of phone purpose) w.db.otp_attempts;
        };
      },
    ))
unfolding clear_otp_attempts
clear_otp_attempts-frame phone purpose w =
    let (r, e) =
      try_redis_set-frame (redis_del (otp_attempts_key phone purpose)) (redis_del-OnlyCache _) w in
    (r, rw e)

-- A known user's token id is stored, or renewed.
pub save_refresh_token-frame :
    (jti : String) (user_id ttl : ℕ) (w : World)
    → any (λ (u : User). u.id == user_id) w.db.users ≡ true
    → (r : Redis) × (save_refresh_token_jti jti user_id ttl w ≡ (
      ok tt,
      record w {
        redis = r;
        db = record w.db {
          refresh_tokens = upsert_refresh_token jti user_id (w.now + ttl) w.db.refresh_tokens;
        };
      },
    ))
unfolding save_refresh_token_jti
save_refresh_token-frame jti user_id ttl w known =
    let (r, e) =
      try_redis_set-frame (redis_set (refresh_jti_key jti) (digits user_id) ttl)
        (redis_set-OnlyCache _ _ _) w in
    (r, rw (e, known))

pub consume_refresh_token-frame :
    (jti : String) (w : World)
    → (r : Redis) × (consume_refresh_token_jti jti w ≡ (
      ok (owner_of (find? (live_token_of jti w.now) w.db.refresh_tokens)),
      record w {
        redis = r;
        db = record w.db {
          refresh_tokens = delete_where (live_token_of jti w.now) w.db.refresh_tokens;
        };
      },
    ))
unfolding consume_refresh_token_jti
consume_refresh_token-frame jti w =
    let (r, e) = try_redis_set-frame (redis_del (refresh_jti_key jti)) (redis_del-OnlyCache _) w in
    (r, rw e)

pub revoke_refresh_token-frame :
    (jti : String) (w : World)
    → (r : Redis) × (revoke_refresh_token_jti jti w ≡ (
      ok tt,
      record w {
        redis = r;
        db = record w.db {
          refresh_tokens =
              update_where
                (token_of jti)
                (λ t. record t { revoked_at = some w.now })
                w.db.refresh_tokens;
        };
      },
    ))
unfolding revoke_refresh_token_jti
revoke_refresh_token-frame jti w =
    let (r, e) = try_redis_set-frame (redis_del (refresh_jti_key jti)) (redis_del-OnlyCache _) w in
    (r, rw e)

-- The rows of the attempt counters after one more wrong code.
abbrev pub AfterAttempt : String → OtpPurpose → ℕ → ℕ → World → World → Type 0
AfterAttempt phone purpose max ttl w w' =
    let rows = upsert_attempts phone purpose w.now ttl w.db.otp_attempts in
    w'.db ≡ record w.db {
      otp_attempts =
          if leb max (returned_attempts phone purpose rows)
          then delete_where (attempts_of phone purpose) rows
          else rows;
    }

pub increment_otp_attempts-frame :
    (phone : String) (purpose : OtpPurpose) (max ttl : ℕ) (w : World)
    → let n =
        returned_attempts phone purpose
          (upsert_attempts phone purpose w.now ttl w.db.otp_attempts) in
      let (r, w') = increment_otp_attempts phone purpose max ttl w in
      (r ≡ ok (record { attempts = n; locked = leb max n }))
      × AfterAttempt phone purpose max ttl w w'
      × (w'.now ≡ w.now)
unfolding increment_otp_attempts
increment_otp_attempts-frame phone purpose max ttl w =
    let (r, e) =
      try_redis_set-frame (bump_cached_attempts (otp_attempts_key phone purpose) ttl)
        (bump_cached-OnlyCache _ _) w in
    let w' : World = record w {
      redis = r;
      db = record w.db { otp_attempts = upsert_attempts phone purpose w.now ttl w.db.otp_attempts };
    } in
    let (r', e') = clear_otp_attempts-frame phone purpose w' in
    elim (Bool-cases (
      leb max (
        returned_attempts phone purpose
          (upsert_attempts phone purpose w.now ttl w.db.otp_attempts)))) [
            | inl t ↦ rw (e, t, e') (refl, refl, refl)
            | inr t ↦ rw (e, t) (refl, refl, refl)
          ]

-- Reading a transaction id never fails, and changes nothing.
pub get_otp_transaction-frame :
    (phone : String) (purpose : OtpPurpose) (w : World)
    → (id : Option String) × (get_otp_transaction_req_id phone purpose w ≡ (ok id, w))
unfolding get_otp_transaction_req_id redis_get
get_otp_transaction-frame phone purpose w = elim (Bool-cases w.redis.enabled) [
  | inr off ↦ (none, rw off)
  | inl on ↦ elim (Bool-cases w.redis.reachable) [
    | inr down ↦ (none, rw (on, down))
    | inl up ↦ read on up
  ]
]
  where
    read :
        w.redis.enabled ≡ true
        → w.redis.reachable ≡ true
        → (id : Option String) × (get_otp_transaction_req_id phone purpose w ≡ (ok id, w))
    read on up =
        elim (Option-cases (
          find?
            (λ (e : Entry).
              str_eq e.key (otp_transaction_key phone purpose) && ltb w.now e.expires_at)
            w.redis.entries)) [
              | inl missing ↦ (none, rw (on, up, missing))
              | inr (e, found) ↦ (some e.value, rw (on, up, found))
            ]

pub saved_transaction-frame :
    (given : Option String) (phone : String) (purpose : OtpPurpose) (w : World)
    → (id : Option String) × (saved_transaction given phone purpose w ≡ (ok id, w))
unfolding saved_transaction
saved_transaction-frame none phone purpose w = get_otp_transaction-frame phone purpose w
saved_transaction-frame (some id) phone purpose w = (some id, refl)
