-- ===== src/Shell.antt =====
-- The decoding of keys (kernel/src/drivers), and the line editor and the assembler (kernel/src/shell).
pub mod Keys
pub mod Editor
pub mod Asm
