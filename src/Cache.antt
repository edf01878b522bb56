-- ===== src/Cache.antt =====
-- internal/cache: what the worker looks up while events arrive.
pub mod EntityCache
pub mod MarkerCache
