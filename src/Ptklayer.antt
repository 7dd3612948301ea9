-- ===== src/Ptklayer.antt =====
-- src/c/ptklayer.c: lists of layers or slider items that the renderer exports.
pub mod Types
pub mod Parse
pub mod Names
pub mod Percent
pub mod Readable
pub mod Siblings
pub mod Paths
pub mod Group
pub mod Items
pub mod Export
pub mod Csv
pub mod Script
pub mod Clipboard
pub mod Copied
pub mod Files
pub mod Commands
pub mod Written
mod Tests
mod DesktopTests
