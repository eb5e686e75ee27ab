-- ===== src/Terminal.antt =====
-- crates/gocode-tui/src/lib.rs: the terminal interface, as far as it is not drawing. Its composer
-- edits a text at a cursor and recalls earlier prompts.
pub mod Cuts
pub mod Lines
pub mod Composer
pub mod Commands
pub mod Keys
pub mod Rows
pub mod Transcript
pub mod Chat
mod Tests
