-- ===== src/UefiConsole/Monitor.antt =====
-- The hot key of Drivers/Dxe/UefiConsole/UefiConsole.c: UefiConsoleStartMonitor and
-- UefiConsoleStopMonitor, and the test in NotificationFunction. The protocol's calls and the events
-- are parameters, by the status that each returns.
pub mod Balance
use uefi_toolkit_pkg.Base.{
  ℕ, zero, suc, ◌+◌, ◌^◌, Bool, true, false, ◌&&◌, ◌||◌, List, [], ◌∷◌, ◌++◌, Option, none, some,
  ◌==◌, if◌then◌else◌, Status, success, efi_error,
}

-- What becomes of the key notifications and of the timer, by their numbers.
pub data Action : Type 0 where
  registers unregisters : ℕ → Action
  creates signals cancels closes : Action

-- NotifyHandle0 to 3, of which none is NULL, and whether mTimerEvent is set.
pub record Monitor : Type 0 where
  pub handles : List (Option ℕ)
  pub timer : Bool
  pub actions : List Action

-- OpenProtocol, the four calls of RegisterKeyNotify, CreateEvent and SignalEvent.
pub record Calls : Type 0 where
  pub open_protocol : Status
  pub register_key : ℕ → Status
  pub create_event : Status
  pub signal_event : Status
  pub unregister_key : Option ℕ → Status

-- CONSOLE_KEY, and the key that control turns it into.
abbrev pub console_key : ℕ
console_key = 114

abbrev pub console_control : ℕ
console_control = 18

-- EFI_SHIFT_STATE_VALID with one of the control keys.
abbrev pub left_control : ℕ
left_control = 2 ^ 31 + 8

abbrev pub right_control : ℕ
right_control = 2 ^ 31 + 4

unfoldable pub is_console_request : ℕ → ℕ → Bool
is_console_request unicode_char key_shift_state =
    (unicode_char == console_key
      && (key_shift_state == left_control || key_shift_state == right_control))
    || unicode_char == console_control

abbrev pub none_set : List (Option ℕ)
none_set = none ∷ none ∷ none ∷ none ∷ []

module _ (calls : Calls) where
  -- One call of RegisterKeyNotify after the others succeeded, for the keys that are left: the
  -- handles it sets, and its status.
  unfoldable pub register_keys : ℕ → ℕ → Status → List (Option ℕ) × List Action × Status
  register_keys zero n status = ([], [], status)
  register_keys (suc left) n status =
      let tried : List (Option ℕ) × List Action × Status =
        register_keys left (n + 1) (calls.register_key n) in
      let skipped : List (Option ℕ) × List Action × Status = register_keys left (n + 1) status in
      if efi_error status
      then (none ∷ skipped.0, skipped.1, status)
      else if efi_error (calls.register_key n)
      then (none ∷ tried.0, tried.1, tried.2)
      else (some n ∷ tried.0, registers n ∷ tried.1, tried.2)

  unfoldable pub create_timer : Monitor → Status → Status × Monitor
  create_timer m status =
      if efi_error status
      then (status, m)
      else if efi_error calls.create_event
      then (calls.create_event, m)
      else (
        calls.signal_event,
        record m { timer = true; actions = m.actions ++ creates ∷ signals ∷ [] },
      )

  unfoldable pub uefi_console_start_monitor : Monitor → Status × Monitor
  unfolding register_keys create_timer
  uefi_console_start_monitor m =
      let keys : List (Option ℕ) × List Action × Status = register_keys 4 0 success in
      if efi_error calls.open_protocol
      then (calls.open_protocol, record m { handles = none_set })
      else create_timer (record m { handles = keys.0; actions = m.actions ++ keys.1 }) keys.2

  abbrev pub given_back : List (Option ℕ) → List Action
  given_back [] = []
  given_back (none ∷ hs) = given_back hs
  given_back (some n ∷ hs) = unregisters n ∷ given_back hs

  -- The status of the last call.
  unfoldable pub last_status : Status → List (Option ℕ) → Status
  last_status status [] = status
  last_status status (h ∷ hs) = last_status (calls.unregister_key h) hs

  -- mTimerEvent and the handles stay as they are.
  unfoldable pub uefi_console_stop_monitor : Monitor → Status × Monitor
  unfolding last_status
  uefi_console_stop_monitor m =
      let timer_actions : List Action = if m.timer then cancels ∷ closes ∷ [] else [] in
      if efi_error calls.open_protocol
      then (calls.open_protocol, record m { actions = m.actions ++ timer_actions })
      else (
        last_status success m.handles,
        record m { actions = m.actions ++ given_back m.handles ++ timer_actions },
      )
