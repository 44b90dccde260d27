-- ===== src/Examples.antt =====
-- The theorems at concrete inputs, and runs of the model.
mod DebugShell
mod HexToBin
mod FlashAccess
mod RamDebug
mod PrintScreen
mod TcpTransport
mod PartEdit
mod RawDataInit
mod UefiTool
mod UefiToolRoutine
mod UefiConsole
mod ConsoleCommands
mod ConsoleInput
mod ConsoleMonitor
mod ConsoleCommandLine
mod ConsoleArguments
mod ConsolePrompt
mod ConsolePackage
mod ConsoleExit
