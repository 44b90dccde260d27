-- ===== src/UefiConsole/Driver.antt =====
-- The driver from its entry point to its unloading: UefiConsoleEntry and UefiConsoleUnload of
-- Drivers/Dxe/UefiConsole/UefiConsole.c, CommandInit of ConsoleCommand.c, and
-- ConsoleCommandLineFreeVarList of ConsoleParameters.c. The handles of the collation protocol, the
-- languages and the pool are parameters; a protocol stands for its handle.
pub mod Unloaded
use uefi_toolkit_pkg.Base.{
  ℕ, ◌+◌, Bool, true, false, List, [], ◌∷◌, Option, none, some, and_then, if◌then◌else◌, Status,
  success, error, unsupported, out_of_resources, efi_error,
}
use uefi_toolkit_pkg.UefiConsole.Commands.{
  Sign, Command, Registry, is_some, commands_constructor, commands_destructor,
}
use uefi_toolkit_pkg.UefiConsole.Monitor.{
  Calls, Monitor, uefi_console_start_monitor, uefi_console_stop_monitor,
}
use uefi_toolkit_pkg.UefiConsole.Package.{Param}

-- What CommandInit calls: whether there is a PlatformLang, the handles (none for an error), the
-- status of OpenProtocol, and whether GetBestLanguage finds one.
pub record InitServices : Type 0 where
  pub platform_lang : Bool
  pub handles : Option (List ℕ)
  pub open_protocol : ℕ → Status
  pub has_language : ℕ → Bool

module _ (services : InitServices) where
  -- The loop over the handles.
  unfoldable pub find_collation : List ℕ → Option ℕ
  find_collation [] = none
  find_collation (h ∷ hs) =
      let rest = find_collation hs in
      if efi_error (services.open_protocol h)
      then rest
      else if services.has_language h
      then some h
      else rest

  abbrev pub located : Option (List ℕ) → List ℕ
  located none = []
  located (some hs) = hs

  -- The status, gUnicodeCollation, and whether PlatformLang is still held.
  unfoldable pub command_init : Option ℕ → Status × Option ℕ × Bool
  command_init collation =
      let found : Option ℕ =
        if is_some collation then collation else find_collation (located services.handles) in
      if services.platform_lang
      then (if is_some found then success else error unsupported, found, is_some collation)
      else (error unsupported, collation, false)

-- The blocks that ConsoleCommandLineFreeVarList frees: of each node its name, its value and itself.
abbrev pub block_of : Option (List ℕ) → ℕ
block_of none = 0
block_of (some text) = 1

unfoldable pub free_var_list : Option (List Param) → ℕ
free_var_list none = 0
free_var_list (some []) = 1
free_var_list (some (item ∷ items)) =
    block_of item.name + block_of item.value + 1 + free_var_list (some items)

-- The globals of the driver: gUnicodeCollation, the commands, mExitRequested, the history, whether
-- the shell parameters are allocated, and the monitor.
pub record Driver (S : Type 0) : Type 0 where
  pub collation : Option ℕ
  pub registry : Registry S
  pub exit_requested : Bool
  pub history : List (List ℕ)
  pub parameters_held : Bool
  pub monitor : Monitor

module _ {S : Type 0} (coll : List ℕ → List ℕ → Sign)
    (swap : List (Command S) → ℕ → ℕ → List (Command S) × ℕ) (has_text : List ℕ → List ℕ → Bool)
    (services : InitServices) (calls : Calls) where
  -- From the allocation of the shell parameters on.
  unfoldable pub start_driver : Bool → Driver S → Status × Driver S
  start_driver room d =
      let started : Status × Monitor = uefi_console_start_monitor calls d.monitor in
      let held : Driver S = record d { parameters_held = true; monitor = started.1 } in
      if room
      then (if efi_error started.0 then started.0 else success, held)
      else (error out_of_resources, d)

  -- The status of the constructor is not looked at.
  unfoldable pub uefi_console_entry :
      (Command S → Bool × Bool)
      → (ℕ → Bool)
      → Bool
      → List (Command S)
      → Driver S
      → Option (Status × Driver S)
  uefi_console_entry rooms name_room room commands d =
      let init : Status × Option ℕ × Bool = command_init services d.collation in
      and_then (commands_constructor coll swap has_text init.0 rooms name_room commands d.registry)
        (λ made. some (
          start_driver room (record d {
            collation = init.1;
            registry = made.1;
            exit_requested = false;
            history = [];
          })))

  unfoldable pub uefi_console_unload : Driver S → Status × Driver S
  uefi_console_unload d =
      let stopped : Status × Monitor = uefi_console_stop_monitor calls d.monitor in
      let freed : Driver S = record d { parameters_held = false; monitor = stopped.1 } in
      if efi_error stopped.0 then (stopped.0, freed) else (
        success,
        record freed {
          collation = none;
          registry = commands_destructor coll swap has_text d.registry;
        },
      )
