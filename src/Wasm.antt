-- ===== src/Wasm.antt =====
-- kernel/src/wasm: the loader, the interpreter, the engine and the tasks.
pub mod Leb
pub mod Loader
pub mod Interp
pub mod Sections
pub mod Instance
pub mod Task
pub mod Engine
