-- ===== src/Examples/ConsoleMonitor.antt =====
-- A console whose third key cannot be registered, for Drivers/Dxe/UefiConsole/UefiConsole.c.
use uefi_toolkit_pkg.Base.{
  ◌≡◌, refl, [], ◌∷◌, success, error, out_of_resources, ◌==◌, if◌then◌else◌,
}
use uefi_toolkit_pkg.UefiConsole.Monitor.{Calls, registers, uefi_console_start_monitor}
use uefi_toolkit_pkg.UefiConsole.Monitor.Balance.{idle}

abbrev calls : Calls
calls = record {
  open_protocol = success;
  register_key = λ n. if n == 2 then error out_of_resources else success;
  create_event = success;
  signal_event = success;
  unregister_key = λ h. success;
}

start_run : (uefi_console_start_monitor calls idle).1.actions ≡ registers 0 ∷ registers 1 ∷ []
unfolding uefi_console_start_monitor
start_run = refl
