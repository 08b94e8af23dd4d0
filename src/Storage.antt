-- ===== src/Storage.antt =====
-- pkg/storage: the store.
pub mod Keys
pub mod Errors
pub mod Redis
pub mod RedisStore
pub mod Manager
