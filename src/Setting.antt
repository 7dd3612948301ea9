-- ===== src/Setting.antt =====
-- src/c/setting.c: the settings, their dialog, and the Lua file that they are kept in.
pub mod Props
pub mod Dialog
pub mod Show
pub mod Unchanged
pub mod Script
pub mod Written
pub mod Kept
pub mod Tests
mod DialogTests
