-- ===== src/Luastr.antt =====
-- src/c/luastr.c: Lua string literals and assignments in the text of an object.
pub mod Encode
pub mod Decode
pub mod Bounds
pub mod Codec
pub mod Find
pub mod Assign
pub mod Literal
mod Tests
