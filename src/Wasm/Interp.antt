-- ===== src/Wasm/Interp.antt =====
-- kernel/src/wasm/interp.rs, part by part.
pub mod State
pub mod Valid
pub mod Scan
pub mod Jumps
pub mod Num
pub mod Control
pub mod Mem
pub mod Step
mod Tests
