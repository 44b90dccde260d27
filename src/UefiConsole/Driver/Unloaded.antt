-- ===== src/UefiConsole/Driver/Unloaded.antt =====
-- The driver of UefiConsole.c when it is unloaded.
use uefi_toolkit_pkg.Base.{
  ℕ, ◌≡◌, ◌∙◌, refl, sym, ap, subst, Bool, true, false, List, [], ◌++◌, Option, none, some,
  and_then, Status, efi_error, Option-cases, inl, inr, arith,
}
use uefi_toolkit_pkg.UefiConsole.Commands.{
  Sign, Command, Registry, commands_constructor, commands_destructor,
}
use uefi_toolkit_pkg.UefiConsole.Commands.Sorted.{Collates, Swaps}
use uefi_toolkit_pkg.UefiConsole.Commands.Lifetime.{commands_destructor-constructor}
use uefi_toolkit_pkg.UefiConsole.Monitor.{
  Calls, Monitor, uefi_console_start_monitor, uefi_console_stop_monitor,
}
use uefi_toolkit_pkg.UefiConsole.Monitor.Balance.{idle, undo, stop_monitor-start_monitor}
use uefi_toolkit_pkg.UefiConsole.Driver.{
  InitServices, Driver, command_init, start_driver, uefi_console_entry, uefi_console_unload,
}

module _ {S : Type 0} (coll : List ℕ → List ℕ → Sign)
    (swap : List (Command S) → ℕ → ℕ → List (Command S) × ℕ) (has_text : List ℕ → List ℕ → Bool)
    (collates : Collates coll) (swaps : Swaps coll swap) (services : InitServices)
    (calls : Calls) where
  abbrev pub unload : Driver S → Status × Driver S
  unload = uefi_console_unload coll swap has_text services calls

  -- Nothing of the driver is left: no command, no block, no parameters, and of the monitor only what
  -- was taken and given back.
  pub record Unloaded (d : Driver S) : Type 0 where
    pub commands : d.registry.commands ≡ []
    pub blocks : d.registry.blocks ≡ 0
    pub parameters : d.parameters_held ≡ false
    pub collation : d.collation ≡ none
    pub actions :
        d.monitor.actions
        ≡ (uefi_console_start_monitor calls idle).1.actions
          ++ undo (uefi_console_start_monitor calls idle).1.actions

  -- What the entry point leaves behind the constructor.
  entered : List (List ℕ) → Option ℕ → Registry S → Driver S
  entered history collation registry = record {
    collation = collation;
    registry = registry;
    exit_requested = false;
    history = history;
    parameters_held = true;
    monitor = (uefi_console_start_monitor calls idle).1;
  }

  unload-entered :
      (history : List (List ℕ)) (collation : Option ℕ) (registry : Registry S)
      → efi_error (uefi_console_stop_monitor calls (uefi_console_start_monitor calls idle).1).0
        ≡ false
      → (commands_destructor coll swap has_text registry).commands ≡ []
      → (commands_destructor coll swap has_text registry).blocks ≡ 0
      → Unloaded (unload (entered history collation registry)).1
  unfolding uefi_console_unload entered
  unload-entered history collation registry stops no_commands no_blocks = rw stops (record {
    commands = no_commands;
    blocks = no_blocks;
    parameters = refl;
    collation = refl;
    actions = stop_monitor-start_monitor calls;
  })

  -- The driver that the constructor's commands are put into.
  constructed : Driver S → Registry S → Driver S
  constructed d made = record d {
    collation = (command_init services d.collation).1;
    registry = made;
    exit_requested = false;
    history = [];
  }

  start_constructed :
      (d : Driver S) (made : Registry S)
      → d.monitor ≡ idle
      → (start_driver coll swap has_text services calls true (constructed d made)).1
        ≡ entered [] (command_init services d.collation).1 made
  unfolding start_driver constructed entered
  start_constructed d made fresh =
      ap
        (λ (m : Monitor). record {
          collation = (command_init services d.collation).1;
          registry = made;
          exit_requested = false;
          history = [];
          parameters_held = true;
          monitor = (uefi_console_start_monitor calls m).1;
        })
        fresh

  -- If UefiConsoleEntry, in a driver whose globals are fresh, came to allocate the shell parameters
  -- and no ASSERT failed, whatever CommandInit and the pool did and whether it succeeds or returns
  -- the error of the monitor: UefiConsoleUnload, when it can stop the monitor, leaves no command
  -- and no block of the commands, frees the shell parameters, and takes back what the monitor took.
  -- That StriColl is an order and SwapListEntries swaps neighbours are hypotheses.
  pub uefi_console_unload-entry :
      (rooms : Command S → Bool × Bool) (name_room : ℕ → Bool) (commands : List (Command S))
      (d d' : Driver S) (status : Status)
      → d.registry.blocks ≡ 0
      → d.monitor ≡ idle
      → efi_error (uefi_console_stop_monitor calls (uefi_console_start_monitor calls idle).1).0
        ≡ false
      → uefi_console_entry coll swap has_text services calls rooms name_room true commands d
        ≡ some (status, d')
      → Unloaded (unload d').1
  unfolding uefi_console_entry constructed
  uefi_console_unload-entry rooms name_room commands d d' status none_held fresh stops h =
      let init = command_init services d.collation in
      elim (Option-cases
        (commands_constructor coll swap has_text init.0 rooms name_room commands d.registry)) [
          | inl asserted ↦ absurd (ground (arith, asserted, h))
          | inr (made, e) ↦
              let start =
                start_driver coll swap has_text services calls true (constructed d made.1) in
              let same : some start ≡ some (status, d') =
                sym (
                  ap
                    (λ o. and_then o (λ made.
                      some (
                        start_driver coll swap has_text services calls true
                          (constructed d made.1))))
                    e)
                ∙ h in
              let result : start.1 ≡ d' = cc same in
              let empty =
                commands_destructor-constructor coll swap has_text collates swaps init.0 rooms
                  name_room commands d.registry made.1 made.0 none_held e in
              subst (λ (x : Driver S). Unloaded (unload x).1)
                (sym (start_constructed d made.1 fresh) ∙ result)
                (unload-entered [] init.1 made.1 stops empty.1 empty.2)
        ]
