-- ===== src/Aviutl.antt =====
-- src/c/aviutl.c: what the plug-in asks of AviUtl, and the checks at its start.
pub mod State
pub mod Calls
pub mod Init
pub mod Version
pub mod Decimal
pub mod Filters
pub mod Modules
pub mod Tests
