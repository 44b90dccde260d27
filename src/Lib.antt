-- ===== src/Lib.antt =====
-- A verification library for parts of UefiToolkitPkg, a package of UEFI drivers, applications and
-- libraries in C. The parts are independent programs; each is modelled in a module of its own.
--
-- DebugShell: Library/DebugShellLib/DebugShellLib.c, the shell on the serial port.
--   Hex (ShellPrintHex64, ShellParseHex64), Input (ShellReadLine), Tokens (ShellTokenize), Command
--   (ShellPrint, Cmd*, ShellProcessCommand, RunDebugShell). Characters are their codes; the serial
--   port is the list of bytes that arrive and the list of bytes sent; AsmReadMsr64 and AsciiStrCmp
--   are parameters. The command loop runs on as much fuel as there are input bytes, plus one: every
--   line takes a byte. ShellTokenize has one round for each byte of its line, plus one.
-- HexToBin: Application/HexToBin/HexToBin.c and HexToBin.h, from Intel HEX to binary.
--   Digits (IntelHexCharToHex, IntelHexGetByte, IntelHexGetWord), Line (IntelHexGetLine), Record
--   and Convert (ProcessIntelHexFile), Files (ReadFileFromDisk, SaveFileToDisk, ShellAppMain).
--   Reads and writes outside a buffer, and uses of what was never set, are faults of the model.
--   The shell library and the pool are parameters. The conversion's fuel is the size of the source
--   plus one: every line takes a byte.
-- FlashAccess: Library/PlatformFlashAccessLib/PlatformFlashAccessLib.c, update of the SPI flash.
--   Device (the SPI protocol, the pool and the PCDs, parameters), Spi (SpiFlash*, Internal*Block),
--   Update (PerformFlashWriteWithProgress, PerformFlashWrite, the constructor). A failed ASSERT
--   stops the model. The loops over a command's bytes have one round for each byte, plus one.
-- PrintScreen: Drivers/Dxe/PrintScreenLogger/PrintScreenLogger.c and PrintScreenLogger.h.
--   Drive (FindUsbDriveForPrintScreen), Bitmap (WriteBmpToFile), Capture (PrintScreenCallback),
--   Driver (the entry point, the unload, UnRegisterNotifications). The boot services, the file
--   system, the graphics protocol and the pool are parameters. The search for a file name has one
--   round for each of the 512 names, plus one.
-- RamDebug: Library/RamDebugLib/RamDebugLib.c and Include/Library/RamDebugLib.h, a log in memory
--   (RamDebugGetLatestIndex, RamDebugGetRecordSize, RamDebugCleanUp, RamDebugPrint). The region is
--   its header fields and its buffer; an access outside the buffer ends the model. The clean-up has
--   one round for each byte of the new record, plus one: every record it removes has a byte. Loops
--   and Log are its loops on a region that holds records, Refine and Newest what is logged.
-- TcpTransport: Application/TcpTransport/TcpTransport.c, a server that saves what it receives.
--   Pool (the blocks of the pool and the pointers to them; what C leaves undefined ends the model),
--   Receive (TcpDataReceive), Save (SaveFileToDisk, ConnectionAccepted), StartUp (ShellAppMain,
--   CommonNotify). The TCP protocol delivers a list of fragments and the error that ends it; the
--   shell's file functions, SIZE_8MB and the room of the pool are parameters.
-- PartEdit: Application/PartEdit/PartEdit.c and PartEdit.h, an editor for disk partitions.
--   PartEdit (OpenPartition, ReadPartition, WritePartition), Sparse (FlashSparseImage,
--   FlashPartition), Erase (ErasePartition), Files (ReadFileFromDisk, SaveFileToDisk), Gpt
--   (EraseGptTable, SaveGptTable), Dump (DumpHex, SavePartitionData, SaveDiskData, WriteDataToDisk,
--   DumpDiskData), Device (IsUsbDevice, InitDevicePath), Entries (ReadPartitionEntries,
--   InitDiskPartition), Main (ShellAppMain). The protocols of the disk and the shell's functions are
--   parameters; Stores and the records Blocks and Device say what the theorems rely on of them. The
--   loops that fill, erase and print have one round for each byte, plus one.
-- RawDataInit: Drivers/Pei/RawDataInit/RawDataInit.c (GetSectionSize, GetRawImage,
--   RawDataInitAtEndOfPei, RawDataInitEntryPoint). The PEI services and the section headers are
--   parameters.
-- UefiTool: Application/UefiTool/UefiTool.c, a tool for registers, memory and ports.
--   UefiTool (ToUpper, StrUpr, the options of ShellAppMain), Machine (what the routine works on),
--   Locate (GetProcessorsCpuLocation), Routine (UefiToolRoutine, SaveFileToDisk, the procedures that
--   run on a processor), Main (ShellAppMain). Registers, memory, the MP services, the shell's files,
--   StrHexToUintn and StrCmp are parameters. The loop over the options has one round for each word,
--   plus one.
-- UefiConsole: Drivers/Dxe/UefiConsole, a console on a hot key.
--   InputLine (the keys of UefiConsoleInRead in UefiConsole.c, on the text in its buffer), InRead
--   (UefiConsoleInRead, AddLineToCommandHistory), Commands (the list of commands of
--   ConsoleCommand.c, ConsoleStrnCatGrow of ConsoleParameters.c), Numbers
--   (ConsoleConvertStringToUint64 and its helpers, ConsoleParameters.c), Monitor
--   (UefiConsoleStartMonitor, UefiConsoleStopMonitor, the test in NotificationFunction),
--   CommandLine (TrimSpaces, FindFirstCharacter; in Next FindEndOfParameter, GetNextParameter,
--   with a call of FindEndOfParameter for each character, plus one; in Arguments
--   ParseCommandLineToArgs, whose loops have a round for each character, plus two), Run
--   (RunInternalCommand, RunShellCommand, UpdateArgcArgv, RestoreArgcArgv, the exit request; Argv
--   is the texts of its array, with a mark once the array was freed), Prompt (DoConsolePrompt,
--   NotificationFunction, with the keys of each prompt given), Package
--   (ConsoleInternalCommandLineParse and the ConsoleCommandLineGet functions), Exit (Exit.c),
--   Reset (Reset.c), Mem (Mem.c), Driver (UefiConsoleEntry, UefiConsoleUnload, CommandInit).
--   StringNoCaseCompare, StrCmp, StrnCmp, StrnCpyS, StriColl, SwapListEntries, StrStr, the pool
--   and the size of the screen are parameters. The loop that moves a command to its place has two
--   rounds for each command on the list, plus three.
-- Examples: the theorems at concrete inputs.
-- Base: what the parts share: tests and lists on the native numbers, bit masks, EFI_STATUS.
--
-- Not modelled: messages (DEBUG, Print), the cache flush before a flash comparison, the other
-- folders of Application, and Library instances that only call into EDK II. UefiAvb has a copy of
-- another project.
pub mod Base
pub mod DebugShell
pub mod HexToBin
pub mod FlashAccess
pub mod RamDebug
pub mod PrintScreen
pub mod TcpTransport
pub mod PartEdit
pub mod RawDataInit
pub mod UefiTool
pub mod UefiConsole
pub mod Examples
