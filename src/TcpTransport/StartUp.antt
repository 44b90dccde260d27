-- ===== src/TcpTransport/StartUp.antt =====
-- ShellAppMain and CommonNotify of TcpTransport.c: the calls that set the server up. Their results
-- are a parameter; events are created, as the ASSERTs have it.
pub mod Outcome
use uefi_toolkit_pkg.Base.{
  ℕ, zero, suc, ◌+◌, Bool, true, false, List, [], ◌∷◌, Option, none, some, and_then, if◌then◌else◌,
  Status, success, warning, error, EfiError, no_mapping, efi_error,
}

-- CommonNotify: the flag behind Context; `none` stands for NULL.
unfoldable pub common_notify : Bool → Option Bool → Option Bool
common_notify event none = none
common_notify event (some flag) = some (if event then true else flag)

-- The statuses of the calls that are tested, and what GetModeData says of IsConfigured each time. What
-- OpenProtocol of the TCP child and the second Configure return is not looked at.
pub record Services : Type 0 where
  pub text_output : Status
  pub text_input : Status
  pub locate_handles : Status
  pub open_binding : Status
  pub create_child : Status
  pub configure : Status
  pub is_configured : List Bool
  pub accept : Status

-- The address that is shown: none yet, the station's, or whatever the stack had.
pub data Address : Type 0 where
  no_address station_address indeterminate : Address

-- What the program has: HandleBuffer, the TCP child, events, the address shown, and whether it
-- listens.
pub record Station : Type 0 where
  pub handle_buffer : Bool
  pub tcp_child : Bool
  pub events : ℕ
  pub address : Address
  pub listening : Bool

abbrev pub idle : Station
idle = record {
  handle_buffer = false;
  tcp_child = false;
  events = 0;
  address = no_address;
  listening = false;
}

-- The loop that waits for DHCP; it has no result if the station is never configured.
unfoldable pub wait_configured : List Bool → Option (Unit {0})
wait_configured [] = none
wait_configured (true ∷ answers) = some tt
wait_configured (false ∷ answers) = wait_configured answers

-- What Configure comes to, EFI_NO_MAPPING included: the status that the if tests, and what the
-- address shown will be. The status of the second Configure is not looked at.
unfoldable pub on_configure : Status → List Bool → Option (Status × Address)
on_configure success answers = some (success, indeterminate)
on_configure (warning n) answers = some (warning n, indeterminate)
on_configure (error no_mapping) answers =
    and_then (wait_configured answers) (λ u. some (success, station_address))
on_configure (error e) answers = some (error e, no_address)

-- From Accept on.
unfoldable pub listen : Services → Station → Status × Station
listen s station = if efi_error s.accept then (s.accept, station) else (
  success,
  record station { handle_buffer = false; events = station.events + 1; listening = true },
)

-- From the tokens on.
unfoldable pub configure_and_listen : Services → Station → Option (Status × Station)
configure_and_listen s station =
    let prepared = record station { events = station.events + 2 } in
    and_then (on_configure s.configure s.is_configured) (λ r.
      if efi_error r.0
      then some (r.0, prepared)
      else some (listen s (record prepared { address = r.1 })))

-- From LocateHandleBuffer on.
unfoldable pub open_tcp_instance : Services → Option (Status × Station)
open_tcp_instance s =
    let located = record idle { handle_buffer = true } in
    let rest = configure_and_listen s (record located { tcp_child = true }) in
    if efi_error s.locate_handles
    then some (s.locate_handles, idle)
    else if efi_error s.open_binding
    then some (s.open_binding, located)
    else if efi_error s.create_child
    then some (s.create_child, located)
    else rest

unfoldable pub shell_app_main : Services → Option (Status × Station)
shell_app_main s =
    let rest = open_tcp_instance s in
    if efi_error s.text_output
    then some (s.text_output, idle)
    else if efi_error s.text_input
    then some (s.text_input, idle)
    else rest
