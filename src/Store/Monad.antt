-- ===== src/Store/Monad.antt =====
-- Requests as actions: state and exceptions (src/database/database.service.ts,
-- src/redis/redis.service.ts). What was written stays written after a throw, except inside
-- `with_transaction`, which puts the tables back and nothing else.
use market_place.Base.{
  ◌≡◌, ◌⊎◌, inl, inr, refl, ℕ, ◌+◌, String, Bool, Option, none, some, List, ◌∷◌, str_eq, not, find?,
  delete_where, if◌then◌else◌, ltb, ◌&&◌,
}
use market_place.Store.Tables.{Db}

pub data Status : Type 0 where
  bad_request unauthorized forbidden not_found conflict service_unavailable : Status

pub data ChatForbiddenReason : Type 0 where
  not_participant conversation_blocked : ChatForbiddenReason

-- the PostgreSQL error codes 23503, 23505 and 23514
pub data PgCode : Type 0 where
  foreign_key_violation unique_violation check_violation : PgCode

pub data Error : Type 0 where
  http : Status → String → Error
  chat_forbidden : ChatForbiddenReason → String → Error
  pg : PgCode → Error
  redis_failure : Error

pub data Result {ℓ} (A : Type ℓ) : Type ℓ where
  ok : A → Result A
  err : Error → Result A

-- a Redis string with the time at which it expires
pub record Entry : Type 0 where
  pub key : String
  pub value : String
  pub expires_at : ℕ

-- `enabled` is whether REDIS_URL is set; commands fail while the server is not `reachable`
pub record Redis : Type 0 where
  pub enabled : Bool
  pub reachable : Bool
  pub entries : List Entry

-- `next_id` is the next value of the identity columns, `draws` the number of random draws so far
pub record World : Type 0 where
  pub db : Db
  pub redis : Redis
  pub now : ℕ
  pub next_id : ℕ
  pub draws : ℕ

abbrev pub Action {ℓ} : Type ℓ → Type ℓ
Action A = World → Result A × World

module _ {ℓ} {A : Type ℓ} where
  abbrev pub pure : A → Action A
  pure a w = (ok a, w)

  abbrev pub throw : Error → Action A
  throw e w = (err e, w)

  abbrev pub throw_http : Status → String → Action A
  throw_http s m w = (err (http s m), w)

  abbrev pub gets : (World → A) → Action A
  gets f w = (ok (f w), w)

-- what follows a call, from how the call ended
abbrev pub continue {ℓ κ} :
    {A : Type ℓ} {B : Type κ} → Result A × World → (A → Action B) → Result B × World
continue (ok a, w) f = f a w
continue (err e, w) f = (err e, w)

infixl 5 ◌>>=◌ ◌>>◌
abbrev pub ◌>>=◌ {ℓ κ} : {A : Type ℓ} {B : Type κ} → Action A → (A → Action B) → Action B
◌>>=◌ m f w = continue (m w) f

abbrev pub ◌>>◌ {ℓ κ} : {A : Type ℓ} {B : Type κ} → Action A → Action B → Action B
m >> k = m >>= λ _. k

-- `if (b) throw e`
abbrev pub throw_if : Bool → Error → Action (Unit {0})
throw_if b e w = (if b then err e else ok tt, w)

abbrev pub or_throw {ℓ} : {A : Type ℓ} → Option A → Error → Action A
or_throw none e w = (err e, w)
or_throw (some a) e w = (ok a, w)

abbrev pub query : (Db → Db) → Action (Unit {0})
query f w = (ok tt, record w { db = f w.db })

-- a value of an identity column
abbrev pub fresh_id : Action ℕ
fresh_id w = (ok w.next_id, record w { next_id = w.next_id + 1 })

-- the number of a random draw
abbrev pub draw : Action ℕ
draw w = (ok w.draws, record w { draws = w.draws + 1 })

abbrev pub handle {ℓ} : {A : Type ℓ} → Result A × World → (Error → Action A) → Result A × World
handle (ok a, w) handler = (ok a, w)
handle (err e, w) handler = handler e w

-- `try { m } catch (e) { handler(e) }`
abbrev pub try_catch {ℓ} : {A : Type ℓ} → Action A → (Error → Action A) → Action A
try_catch m handler w = handle (m w) handler

abbrev pub commit_or_rollback {ℓ} : {A : Type ℓ} → Db → Result A × World → Result A × World
commit_or_rollback before (ok a, w) = (ok a, w)
commit_or_rollback before (err e, w) = (err e, record w { db = before })

-- DatabaseService.withTransaction: BEGIN, the callback, COMMIT or ROLLBACK
abbrev pub with_transaction {ℓ} : {A : Type ℓ} → Action A → Action A
with_transaction m w = commit_or_rollback w.db (m w)

-- A call that only reads ends in its own world, with a value or an error.
pub outcome-cases {ℓ} :
    {A : Type ℓ} (x : Result A × World) (w : World)
    → x.1 ≡ w
    → ((a : A) × (x ≡ (ok a, w))) ⊎ ((e : Error) × (x ≡ (err e, w)))
outcome-cases (ok a, w') w same = inl (a, rw same)
outcome-cases (err e, w') w same = inr (e, rw same)

-- What follows a call that threw is not run.
pub continue-err {ℓ κ} :
    {A : Type ℓ} {B : Type κ} (x : Result A × World) (f : A → Action B) {e : Error}
    → x.0 ≡ err e
    → (continue x f).0 ≡ err e
continue-err (ok a, w) f h = cc
continue-err (err e, w) f h = cc

pub err-not_ok {ℓ} : {A : Type ℓ} {r : Result A} {e : Error} {a : A} → r ≡ err e → r ≡ ok a → ⊥
err-not_ok h k = cc

-- A transaction that ends well is its callback.
pub commit-ok {ℓ} :
    {A : Type ℓ} (before : Db) (x : Result A × World) {a : A}
    → (commit_or_rollback before x).0 ≡ ok a
    → commit_or_rollback before x ≡ x
commit-ok before (ok a, w) h = refl
commit-ok before (err e, w) h = cc

-- A transaction that fails leaves the tables as they were.
pub rollback-db {ℓ} :
    {A : Type ℓ} (before : Db) (x : Result A × World) {e : Error}
    → (commit_or_rollback before x).0 ≡ err e
    → (commit_or_rollback before x).1.db ≡ before
rollback-db before (ok a, w) h = cc
rollback-db before (err e, w) h = refl

abbrev value_of : Option Entry → Option String
value_of none = none
value_of (some e) = some e.value

-- RedisService.get, set and del
unfoldable pub redis_get : String → Action (Option String)
redis_get k w =
    if not w.redis.enabled
    then (ok none, w)
    else if w.redis.reachable
    then (
      ok (
          value_of
            (find? (λ (e : Entry). str_eq e.key k && ltb w.now e.expires_at) w.redis.entries)),
      w,
    )
    else (err redis_failure, w)

unfoldable pub redis_set : String → String → ℕ → Action (Unit {0})
redis_set k v ttl w =
    if not w.redis.enabled
    then (ok tt, w)
    else if w.redis.reachable
    then (
      ok tt,
      record w {
        redis = record w.redis {
          entries =
              record { key = k; value = v; expires_at = w.now + ttl }
              ∷ delete_where (λ (e : Entry). str_eq e.key k) w.redis.entries;
        };
      },
    )
    else (err redis_failure, w)

unfoldable pub redis_del : String → Action (Unit {0})
redis_del k w =
    if not w.redis.enabled
    then (ok tt, w)
    else if w.redis.reachable
    then (
      ok tt,
      record w {
        redis = record w.redis {
          entries = delete_where (λ (e : Entry). str_eq e.key k) w.redis.entries;
        };
      },
    )
    else (err redis_failure, w)
