-- ===== src/Cache.antt =====
-- src/c/cache.c: the cache of images.
pub mod Store
pub mod Items
pub mod Tests
