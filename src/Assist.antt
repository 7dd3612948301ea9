-- ===== src/Assist.antt =====
-- src/c/assist.c: the plug-in's start and end, and what it does with its messages.
pub mod Rewrite
pub mod Receive
pub mod Assigned
pub mod Export
pub mod Menu
pub mod Exported
pub mod Wav
pub mod Sound
pub mod Lifetime
pub mod Project
pub mod Messages
pub mod Running
pub mod Starting
pub mod Bridge
pub mod Started
pub mod Stopped
pub mod Tests
mod ExportTests
mod SoundTests
mod LifetimeTests
