-- ===== src/Popupmenu.antt =====
-- src/c/popupmenu.c: the menu that is shown over the renderer's window.
pub mod Show
pub mod Shown
mod Tests
