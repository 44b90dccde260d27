-- ===== src/DebugShell.antt =====
-- Library/DebugShellLib/DebugShellLib.c: the serial debug shell.
pub mod Hex
pub mod Input
pub mod Tokens
pub mod Command
