-- ===== src/Ipc.antt =====
-- src/c/ipc.c: the renderer process, and the commands and requests that pass through its pipes.
pub mod State
pub mod Wire
pub mod Requests
pub mod Worker
pub mod Environment
pub mod Process
pub mod Commands
pub mod Transfer
pub mod Messages
pub mod Serve
pub mod Properties
pub mod Sending
pub mod Handles
pub mod Started
pub mod Balance
pub mod Handover
pub mod Exchange
pub mod Machine
mod Tests
