-- ===== src/Luafuncs.antt =====
-- src/c/luafuncs.c: the functions that the plug-in's module has for Lua.
pub mod Functions
pub mod Names
pub mod Tests
