-- ===== src/Lib.antt =====
-- The marketplace backend, verified: a NestJS service over PostgreSQL and Redis in which users
-- register by phone, offer products, talk about them, and are moderated by admins.
--
-- Every request handler is an action `World → Result A × World` (Store/Monad). A `World` has the
-- tables of db/schema.sql as lists of rows, the latest insert first (Store/Tables), the Redis cache,
-- the clock in seconds, the next identity value and the number of random draws so far. A handler
-- throws an HTTP status with its message, or the PostgreSQL error codes that the services look at.
-- What was written before a throw stays written, except inside `with_transaction`, which models
-- DatabaseService.withTransaction of src/database/database.service.ts: the tables go back, the cache
-- does not. The statements of SQL are list operations (Base/Rows, Base/Pages). The services meet in
-- the tables: a block of src/blocks is read by the guards of src/chat and src/products, and a change
-- of an account by src/admin is read by the strategy of src/auth.
--
-- Which file models which part (paths from the repository's root):
--   Base, Base/Tests, Base/Rows, Base/Pages, Base/Text, Base/Decimal, Base/Double, Base/DecimalText,
--     Base/JsValue, Base/Json: shared names, tests, tables as lists, methods of texts, decimal text,
--     whole numbers as doubles, the values that a driver may hand out
--     (src/common/helpers/id.helpers.ts), and values of JSON
--   Store/Tables, Store/Monad: db/schema.sql, src/database/database.service.ts,
--     src/redis/redis.service.ts
--   Auth/StateStore: src/auth/auth-state.store.ts (counters of wrong codes, transaction ids,
--     refresh tokens), with what each operation leaves in the tables in StateStore/Frame
--   Auth/Provider, Auth/Console, Auth/Akedly: src/auth/otp-sender
--   Auth/Tokens, Auth/Session, Auth/Registration, Auth/Password: src/auth/auth.service.ts and
--     src/common/mappers/app-user.mapper.ts
--   Auth/Strategy: src/auth/jwt.strategy.ts, src/common/guards/admin.guard.ts,
--     src/auth/otp-cleanup.task.ts
--   Chat/Guards, Chat/Conversations, Chat/Messages: src/chat/chat.service.ts and
--     src/common/helpers/db.helpers.ts
--   Chat/Registry: src/chat/chat-socket-registry.service.ts
--   Chat/Gateway: src/chat/chat.gateway.ts and `createConversation` of src/chat/chat.controller.ts; the
--     runs of the chat as a step relation in Gateway/Steps, its invariant in Gateway/Rooms
--   Chat/Errors: src/chat/chat-ws-exception.filter.ts
--   Categories: src/categories/categories.service.ts
--   Products/Taxonomy: src/products/product-taxonomy.ts
--   Products/Pairs, Products/Images, Products/Catalog, Products/Filters:
--     src/products/products.service.ts
--   Admin/Audit, Admin/Accounts, Admin/Reports, Admin/Categories, Admin/Lists:
--     src/admin/admin.service.ts
--   Community/Blocks: src/blocks/blocks.service.ts and src/favorites/favorites.service.ts
--   Community/Favorites: `listFavorites` of src/favorites/favorites.service.ts
--   Community/Ratings: src/ratings/ratings.service.ts and src/reports/reports.service.ts
--   Users, Users/Profile: src/users/users.service.ts
--   Files/ReadUrl, Files/Storage, Files/Uploads: src/files
--   Relations/Rules, Relations/Entities, Relations/Expand: src/common/relations/fk-expansion.service.ts
--   Logging/Sanitize, Logging/Logger: src/common/logging and
--     src/common/interceptors/logging.interceptor.ts
--   Http/Envelope: the other interceptors of src/common/interceptors and
--     src/common/filters/http-exception.filter.ts
--   Config/Cors, Config/Startup: src/config/configuration.ts and src/common/cors/cors-policy.ts
--   Examples: a concrete environment, sample tables, and every property at concrete inputs
-- A definition has the name of its function or method in snake case; a folder under a file holds the
-- proofs about it.
--
-- What the code takes from outside is a parameter: the record `Env` (Auth/Env) has the configuration,
-- bcrypt, the HMAC, the random source and the signing of tokens, with `CryptoLaws` for what is
-- documented of them; `Remote` (Auth/Akedly) answers the requests to the provider; `Driver`
-- (Chat/Guards) says how the database driver hands out a BIGINT, as a number or as its digits, such
-- that the code reads back the id (digits are read exactly up to 2^53, beyond any id in practice);
-- `StorageEnv` (Files/Storage) has the settings of the storage and the hash function; `UrlParser`
-- (Config/Cors) is the URL class of the platform.
--
-- Loops over rows are structural recursion. The only fuel is in Base/Decimal, where the digits of
-- `n` take at most `n + 1` rounds, and in Base/Double, where 971 doublings reach the unit of the
-- largest doubles. Prices are whole hundredths and times whole seconds.
--
-- Rows of one instant are ordered by insertion, which SQL leaves open, and identity values are unique
-- only as far as a theorem says so. Concurrent requests run one after the other: a handler, one of the
-- gateway as well, is one step. A socket that disconnects leaves its rooms, as socket.io documents. An
-- object of JSON keeps its keys in the order of insertion, and none is a name of Object.prototype.
--
-- Not modelled: the search of accounts by an admin; the searches of products; the
-- list of categories; the log lines but the one of a request; the numbers of the configuration; the
-- columns with times of creation; the controllers and their validation; seeders and scripts. They are
-- I/O, framework glue, or not reached yet.
pub mod Base
pub mod Store
pub mod Auth
pub mod Chat
pub mod Products
pub mod Admin
pub mod Community
pub mod Users
pub mod Files
pub mod Relations
pub mod Logging
pub mod Http
pub mod Config
pub mod Categories
pub mod Examples
