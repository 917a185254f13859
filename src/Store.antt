-- ===== src/Store.antt =====
-- The state that the services share: the tables of db/schema.sql, the Redis cache
-- (src/redis/redis.service.ts), the clock and the source of random draws, and the actions on it.
pub mod Tables
pub mod Monad
pub use Tables.*
unfoldable pub use Monad.*
