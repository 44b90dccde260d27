-- ===== src/UefiConsole.antt =====
-- Drivers/Dxe/UefiConsole, a console on a hot key: its parts by file and function.
pub mod CommandLine
pub mod Commands
pub mod Driver
pub mod Exit
pub mod InputLine
pub mod InRead
pub mod Mem
pub mod Monitor
pub mod Package
pub mod Prompt
pub mod Reset
pub mod Run
pub mod Numbers
