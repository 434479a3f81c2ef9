-- ===== src/Wasm/Engine.antt =====
-- kernel/src/wasm/engine.rs: its host functions, and its walks over the data and the import section.
-- Host holds what the host functions share.
pub mod Host
pub mod Files
pub mod Net
pub mod Answers
pub mod Stored
pub mod Memory
mod Tests
