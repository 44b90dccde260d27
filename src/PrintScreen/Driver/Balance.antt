-- ===== src/PrintScreen/Driver/Balance.antt =====
-- What the driver registers is taken back: once after a good start, twice after a failed one.
use uefi_toolkit_pkg.Base.{
  ℕ, ◌≡◌, Bool, true, false, ◌||◌, not, List, [], ◌∷◌, some, arith, if◌then◌else◌, Status,
  efi_error,
}
use uefi_toolkit_pkg.PrintScreen.Driver.{
  Services, Call, registered, unregistered, event_created, event_closed, un_register_notifications,
  register_keys, start_timer, end_entry, print_screen_logger_entry, print_screen_logger_unload,
}

-- What the services hand out: the notification of a key, by its number, and the timer event.
pub data Resource : Type 0 where
  key : ℕ → Resource
  timer : Resource

-- The key notifications registered and the events created, in order.
abbrev pub taken : List Call → List Resource
taken [] = []
taken (registered n ∷ cs) = key n ∷ taken cs
taken (event_created ∷ cs) = timer ∷ taken cs
taken (_ ∷ cs) = taken cs

-- The key notifications unregistered and the events closed, in order.
abbrev pub given_back : List Call → List Resource
given_back [] = []
given_back (unregistered n ∷ cs) = key n ∷ given_back cs
given_back (event_closed ∷ cs) = timer ∷ given_back cs
given_back (_ ∷ cs) = given_back cs

-- Whether every call of the entry point's services succeeds.
abbrev pub starts : Services → Bool
starts s =
    if efi_error (s.register 0) || efi_error (s.register 1)
    then false
    else if efi_error s.create_event
    then false
    else not (efi_error s.signal_event)

-- When the console's protocol can be opened: after a start without errors the entry point has
-- registered the left key, then the right key, created the timer event, and given nothing back; the
-- unload gives back just these, each once. After a start with an error the entry point has given
-- back just what it took, each once, and the unload gives back the same a second time.
pub print_screen_logger_entry-unload :
    (s : Services) (opened : Status)
    → s.console ≡ some opened
    → efi_error opened ≡ false
    → let r = print_screen_logger_entry s in
      let unloaded = (print_screen_logger_unload r.1).1 in
      (given_back unloaded ≡ taken r.2)
      × (given_back r.2 ≡ (if starts s then [] else taken r.2))
      × (starts s ≡ true → taken r.2 ≡ key 0 ∷ key 1 ∷ timer ∷ [])
unfolding print_screen_logger_entry print_screen_logger_unload end_entry start_timer register_keys
    un_register_notifications
print_screen_logger_entry-unload s opened some_console fine = rw (some_console, fine) (ground arith)
