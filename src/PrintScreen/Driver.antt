-- ===== src/PrintScreen/Driver.antt =====
-- PrintScreenLoggerEntry, PrintScreenLoggerUnload and UnRegisterNotifications of
-- Drivers/Dxe/PrintScreenLogger/PrintScreenLogger.c. The services are parameters.
pub mod Balance
use uefi_toolkit_pkg.Base.{
  ℕ, zero, suc, ◌+◌, Bool, true, false, not, List, [], ◌∷◌, ◌++◌, Option, none, some, if◌then◌else◌,
  Status, success, error, efi_error, not_found,
}

-- OpenProtocol on ConsoleInHandle (`none` without one), RegisterKeyNotify for a key, CreateEvent,
-- SignalEvent. A handle or an event that is handed out is not NULL.
pub record Services : Type 0 where
  pub console : Option Status
  pub register : ℕ → Status
  pub create_event : Status
  pub signal_event : Status

pub data Call : Type 0 where
  registered unregistered : ℕ → Call
  event_created timer_canceled event_closed : Call

-- Which NotifyHandle of gPrtScnKeys is not NULL, for the left and the right key, and gTimerEvent.
pub record Globals : Type 0 where
  pub left : Bool
  pub right : Bool
  pub timer : Bool

abbrev pub fresh : Globals
fresh = record { left = false; right = false; timer = false }

-- UnRegisterNotifications: it leaves the globals as they are.
unfoldable pub un_register_notifications : Globals → List Call
un_register_notifications g =
    (if g.left then unregistered 0 ∷ [] else [])
    ++ ((if g.right then unregistered 1 ∷ [] else [])
        ++ (if g.timer then timer_canceled ∷ event_closed ∷ [] else []))

-- Step 2 of the entry point: both keys in order, up to the first error.
unfoldable pub register_keys : Services → Status × Globals × List Call
register_keys s =
    if efi_error (s.register 0)
    then (s.register 0, fresh, [])
    else if efi_error (s.register 1)
    then (s.register 1, record fresh { left = true }, registered 0 ∷ [])
    else (
      s.register 1,
      record fresh { left = true; right = true },
      registered 0 ∷ registered 1 ∷ [],
    )

-- Steps 3 and 4: the timer event, if the keys are registered.
unfoldable pub start_timer : Services → Status × Globals × List Call → Status × Globals × List Call
start_timer s (status, g, calls) =
    if efi_error status
    then (status, g, calls)
    else if efi_error s.create_event
    then (s.create_event, g, calls)
    else (s.signal_event, record g { timer = true }, calls ++ event_created ∷ [])

-- The end of the entry point: take everything back on an error.
unfoldable pub end_entry : Status × Globals × List Call → Status × Globals × List Call
end_entry (status, g, calls) =
    (success, g, if efi_error status then calls ++ un_register_notifications g else calls)

-- PrintScreenLoggerEntry: its status, the globals, its calls.
unfoldable pub print_screen_logger_entry : Services → Status × Globals × List Call
print_screen_logger_entry s =
    let opened : Status = elim s.console [ none ↦ error not_found | some status ↦ status ] in
    if efi_error opened then (success, fresh, []) else end_entry (start_timer s (register_keys s))

unfoldable pub print_screen_logger_unload : Globals → Status × List Call
print_screen_logger_unload g = (success, un_register_notifications g)
