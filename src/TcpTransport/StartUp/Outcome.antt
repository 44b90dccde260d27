-- ===== src/TcpTransport/StartUp/Outcome.antt =====
-- What ShellAppMain of TcpTransport.c leaves behind.
use uefi_toolkit_pkg.Base.{◌≡◌, Bool, true, false, not, ◌&&◌, some, arith, Status, efi_error}
use uefi_toolkit_pkg.TcpTransport.StartUp.{
  Services, Station, indeterminate, on_configure, listen, configure_and_listen, open_tcp_instance,
  shell_app_main,
}

-- The calls before CreateChild succeed, and HandleBuffer is allocated.
abbrev pub located : Services → Bool
located s =
    not (efi_error s.text_output)
    && not (efi_error s.text_input)
    && not (efi_error s.locate_handles)

-- CreateChild succeeds as well.
abbrev pub with_child : Services → Bool
with_child s = located s && not (efi_error s.open_binding) && not (efi_error s.create_child)

-- What ShellAppMain returned with, in a station.
pub record Outcome (s : Services) (status : Status) (station : Station) : Type 0 where
  pub listens : station.listening ≡ not (efi_error status)
  pub handles : station.handle_buffer ≡ (efi_error status && located s)
  pub child : station.tcp_child ≡ with_child s

-- When ShellAppMain returns, it listens exactly if its status is no error. HandleBuffer is then freed,
-- but on every error after LocateHandleBuffer it is still allocated; the TCP child is never
-- destroyed.
pub shell_app_main-Outcome :
    (s : Services) (status : Status) (station : Station)
    → shell_app_main s ≡ some (status, station)
    → Outcome s status station
unfolding shell_app_main open_tcp_instance configure_and_listen listen on_configure
shell_app_main-Outcome s status station h = record {
  listens = ground arith;
  handles = ground arith;
  child = ground arith;
}

-- When Configure is no error at once, the address that ShellAppMain shows before it listens is an
-- uninitialised one.
pub shell_app_main-indeterminate :
    (s : Services) (status : Status) (station : Station)
    → efi_error s.configure ≡ false
    → shell_app_main s ≡ some (status, station)
    → station.listening ≡ true
    → station.address ≡ indeterminate
unfolding shell_app_main open_tcp_instance configure_and_listen listen on_configure
shell_app_main-indeterminate s status station fine h listens = ground arith
