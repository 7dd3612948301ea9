-- ===== src/Speak.antt =====
-- src/c/speak.c: the audio files that are kept open, and the loudness of a voice in them.
pub mod Types
pub mod Slots
pub mod Seen
pub mod Scan
pub mod Level
pub mod Thread
pub mod Handles
pub mod Opening
pub mod Closing
pub mod Index
pub mod Tests
