-- ===== src/Find.antt =====
-- src/c/find.c: the search for the edit control of the PSD file object, and for a dialog of
-- parameters.
pub mod Search
pub mod Wrapper
pub mod Located
pub mod Dialog
pub mod Order
pub mod Pairs
pub mod Parameters
mod DialogTests
pub mod Tests
