-- ===== src/Admin/Accounts/Revocation.antt =====
-- What a change of an account does to the access tokens that its user holds.
use market_place.Base.{
  ℕ, ◌+◌, ◌≡◌, refl, delete_where, str_eq, ==_self, String, Bool, true, false, Option, none, some,
  List, [], ◌∷◌, ◌==◌, arith, find?, update_where, find?-update_where, Bool-cases, inl, inr,
}
use Prim.Native.String.{◌++◌}
use market_place.Base.Decimal.{digits}
use market_place.Base.JsValue.{to_positive_int}
use market_place.Store.{
  World, Result, Redis, Entry, redis_failure, pure, ok, err, http, unauthorized, User, UserStatus,
  continue, AuditLog, redis_del,
}
use market_place.Auth.Session.{account_id}
use market_place.Auth.Strategy.{JwtPayload, validate}
use market_place.Admin.Audit.{log_admin_action-frame}
use market_place.Admin.Accounts.{
  update_account, with_admin, with_deletion, promote_admin, demote_admin, update_user_status,
  delete_user,
}

-- the token names the account and carries its version
abbrev pub TokenOf : ℕ → User → JwtPayload → Type 0
TokenOf id u payload =
    (to_positive_int payload.sub ≡ some id) × (payload.token_version ≡ some u.token_version)

-- With another version in the table, or no account, the token is stale.
stale_version :
    (id : ℕ) (u v : User) (payload : JwtPayload) (w : World)
    → TokenOf id u payload
    → find? (account_id id) w.db.users ≡ some v
    → (v.token_version == u.token_version) ≡ false
    → validate payload w ≡ (err (http unauthorized "Token is stale"), w)
unfolding validate
stale_version id u v payload w (names, version) found other = rw (version, names, found, other) refl

no_account :
    (id : ℕ) (u : User) (payload : JwtPayload) (w : World)
    → TokenOf id u payload
    → find? (account_id id) w.db.users ≡ none
    → validate payload w ≡ (err (http unauthorized "Token is stale"), w)
unfolding validate
no_account id u payload w (names, version) gone = rw (version, names, gone) refl

-- the world after the log was written
abbrev logged_as : World → List AuditLog → World
logged_as w log = record w { db = record w.db { audit_logs = log } }

bumped : (n : ℕ) → (n + 1 == n) ≡ false
bumped n = ground arith

-- the answer to a change of role, the row that it leaves and what becomes of an earlier token
abbrev pub HasRole : Bool → ℕ → User → JwtPayload → Result (Option User) × World → Type 0
HasRole admin id u payload after =
    let v : User = record u { is_admin = admin; token_version = u.token_version + 1 } in
    (after.0 ≡ ok (some v))
    × (find? (account_id id) after.1.db.users ≡ some v)
    × ((validate payload after.1).0 ≡ err (http unauthorized "Token is stale"))

-- the tables with the new role, before the log was written
abbrev with_role : Bool → ℕ → World → World
with_role b id w = record w {
  db = record w.db { users = update_where (account_id id) (with_admin b) w.db.users };
}

found_role :
    (b : Bool) (id : ℕ) (u : User) (w : World)
    → find? (account_id id) w.db.users ≡ some u
    → find? (account_id id) (with_role b id w).db.users ≡ some (with_admin b u)
found_role b id u w found =
    find?-update_where (account_id id) (with_admin b) (λ x. refl) w.db.users found

stale_role :
    (b : Bool) (id : ℕ) (u : User) (payload : JwtPayload) (w : World) (log : List AuditLog)
    → find? (account_id id) w.db.users ≡ some u
    → TokenOf id u payload
    → validate payload (logged_as (with_role b id w) log)
      ≡ (err (http unauthorized "Token is stale"), logged_as (with_role b id w) log)
stale_role b id u payload w log found token =
    stale_version id u (with_admin b u) payload (logged_as (with_role b id w) log) token
      (found_role b id u w found) (bumped u.token_version)

-- A user is made an admin, or an admin is made a user by another admin: the change succeeds, the
-- answer and the account in the table are the old account with `is_admin` true after a promotion,
-- false after a demotion, and a version raised by one; and every token that carries the version
-- from before is stale, so that none keeps the old role.
pub role_change-revokes :
    (admin_id id : ℕ) (u : User) (payload : JwtPayload) (w : World)
    → find? (account_id id) w.db.users ≡ some u
    → TokenOf id u payload
    → (u.is_admin ≡ false → HasRole true id u payload (promote_admin admin_id id w))
      × (u.is_admin ≡ true
          → (admin_id == id) ≡ false
          → HasRole false id u payload (demote_admin admin_id id w))
unfolding promote_admin demote_admin update_account
role_change-revokes admin_id id u payload w found token =
    let (log1, logged1) =
      log_admin_action-frame admin_id "promote_admin" "user" (some id) (with_role true id w) in
    let (log2, logged2) =
      log_admin_action-frame admin_id "demote_admin" "user" (some id) (with_role false id w) in
    (
      λ plain.
          rw (found, plain, logged1)
            (
              rw found refl,
              found_role true id u w found,
              rw (stale_role true id u payload w log1 found token) refl,
            ),
      λ admin other.
          rw (other, found, admin, logged2)
            (
              rw found refl,
              found_role false id u w found,
              rw (stale_role false id u payload w log2 found token) refl,
            ),
    )

redis_del-frame :
    (k : String) (w : World)
    → (x : Result (Unit {0})) × (r : Redis) × (redis_del k w ≡ (x, record w { redis = r }))
unfolding redis_del
redis_del-frame k w = elim (Bool-cases w.redis.enabled) [
  | inr off ↦ (ok tt, w.redis, rw off refl)
  | inl on ↦ elim (Bool-cases w.redis.reachable) [
    | inr away ↦ (err redis_failure, w.redis, rw (on, away) refl)
    | inl there ↦ (
      ok tt,
      record w.redis { entries = delete_where (λ (e : Entry). str_eq e.key k) w.redis.entries },
      rw (on, there) refl,
    )
  ]
]

find?-deleted :
    (id now : ℕ) (users : List User)
    → find? (account_id id) (update_where (account_id id) (with_deletion now) users) ≡ none
unfolding find? update_where
find?-deleted id now [] = refl
find?-deleted id now (u ∷ users) = ground (arith, find?-deleted id now users)

-- After an existing account was deleted, whatever Redis answers, every token that names it with
-- the version it had is stale.
pub delete_user-revokes :
    (admin_id id : ℕ) (u : User) (payload : JwtPayload) (w : World)
    → find? (account_id id) w.db.users ≡ some u
    → TokenOf id u payload
    → (validate payload (delete_user admin_id id w).1).0 ≡ err (http unauthorized "Token is stale")
unfolding delete_user update_account
delete_user-revokes admin_id id u payload w found token =
    let after : World = record w {
      db = record w.db { users = update_where (account_id id) (with_deletion w.now) w.db.users };
    } in
    let (log, logged) = log_admin_action-frame admin_id "delete_user" "user" (some id) after in
    let (x, r, dropped) =
      redis_del-frame ("user:status:" ++ digits id)
        (record after { db = record after.db { audit_logs = log } }) in
    rw
      (
        found,
        logged,
        dropped,
        no_account id u payload
            (record after { redis = r; db = record after.db { audit_logs = log } }) token
            (find?-deleted id w.now w.db.users),
      )
      refl

abbrev pub AcceptsAs : JwtPayload → ℕ → User → World → Type 0
AcceptsAs payload id u w =
    (validate payload w).0
    ≡ ok (record {
      sub = id;
      phone = u.phone;
      is_admin = payload.is_admin;
      token_version = u.token_version;
    })

accepts :
    (id : ℕ) (u : User) (status : UserStatus) (payload : JwtPayload) (w : World)
    → TokenOf id u payload
    → find? (account_id id) w.db.users ≡ some (record u { status = status })
    → AcceptsAs payload id u w
unfolding validate
accepts id u status payload w (names, version) found =
    rw (version, names, found, ==_self u.token_version) refl

-- A change of an account's status, to "banned" as well, leaves its access tokens valid: with any
-- answer of Redis a token with the account's version is still accepted.
pub update_user_status-keeps_tokens :
    (admin_id id : ℕ) (u : User) (status : UserStatus) (payload : JwtPayload) (w : World)
    → find? (account_id id) w.db.users ≡ some u
    → TokenOf id u payload
    → AcceptsAs payload id u (update_user_status admin_id id status w).1
unfolding update_user_status update_account
update_user_status-keeps_tokens admin_id id u status payload w found token =
    let after : World = record w {
      db = record w.db {
        users = update_where (account_id id) (λ x. record x { status = status }) w.db.users;
      };
    } in
    let (log, logged) =
      log_admin_action-frame admin_id "update_user_status" "user" (some id) after in
    let (x, r, dropped) =
      redis_del-frame ("user:status:" ++ digits id)
        (record after { db = record after.db { audit_logs = log } }) in
    rw (found, logged, dropped)
      (either x (record after { redis = r; db = record after.db { audit_logs = log } })
        (accepts id u status payload _ token (
          find?-update_where (account_id id) (λ x. record x { status = status }) (λ x. refl)
            w.db.users found)))
  where
    either :
        (x : Result (Unit {0})) (v : World)
        → AcceptsAs payload id u v
        → AcceptsAs payload id u (continue (x, v) (λ _. pure (record u { status = status }))).1
    either (ok a) v h = h
    either (err e) v h = h
