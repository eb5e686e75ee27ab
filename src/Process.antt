-- ===== src/Process.antt =====
-- crates/gocode-tools/src/process.rs: what the program keeps of the output of a process. The secrets
-- in it are taken out, and a long output keeps its first and its last bytes.
pub mod Redact
pub mod Buffer
pub mod Run
mod Tests
