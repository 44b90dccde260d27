-- ===== src/Examples/ConsoleCommands.antt =====
-- A list of commands for Drivers/Dxe/UefiConsole/ConsoleCommand.c.
use uefi_toolkit_pkg.Base.{
  ℕ, zero, suc, ◌+◌, ◌≡◌, ◌∙◌, sym, subst, ap, refl, Bool, true, false, List, [], ◌∷◌, ◌++◌, some,
  none, codes, success, error, not_found, invalid_parameter, out_of_resources, efi_error, arith,
  ltb, ◌==◌, length, if◌then◌else◌,
}
use uefi_toolkit_pkg.UefiConsole.Commands.{
  Sign, below, same, above, Command, Profiles, Registry, is_command_on_list, add_profile,
  register_command_name, run_command_handler, commands_constructor, installed, strn_cat_grow,
  grow_loop, find_command, sort_loop, insert_node, register_all,
}
use uefi_toolkit_pkg.UefiConsole.Commands.Sorted.{Collates, Swaps}
use uefi_toolkit_pkg.UefiConsole.Commands.Registered.{
  IsValid, with_command, register_command_name-IsValid, run_command_handler-register, run_now,
}
use uefi_toolkit_pkg.UefiConsole.Monitor.{
  Calls, uefi_console_start_monitor, uefi_console_stop_monitor,
}
use uefi_toolkit_pkg.UefiConsole.Monitor.Balance.{idle}
use uefi_toolkit_pkg.UefiConsole.Driver.{
  InitServices, Driver, find_collation, command_init, start_driver, uefi_console_entry,
}
use uefi_toolkit_pkg.UefiConsole.Driver.Unloaded.{Unloaded, unload, uefi_console_unload-entry}

-- The order of the texts by their characters.
order : List ℕ → List ℕ → Sign
order [] [] = same
order [] (b ∷ t) = below
order (a ∷ s) [] = above
order (a ∷ s) (b ∷ t) = if ltb a b then below else if ltb b a then above else order s t

order_self : (a : List ℕ) → order a a ≡ same
unfolding order
order_self [] = refl
order_self (a ∷ s) = ground (arith, order_self s)

order_flip : (a b : List ℕ) → order a b ≡ above → order b a ≡ below
unfolding order
order_flip [] [] h = cc
order_flip [] (b ∷ t) h = cc
order_flip (a ∷ s) [] h = refl
order_flip (a ∷ s) (b ∷ t) h = ground (arith, order_flip s t)

order_eq : (a b : List ℕ) → order a b ≡ same → a ≡ b
unfolding order
order_eq [] [] h = refl
order_eq [] (b ∷ t) h = cc
order_eq (a ∷ s) [] h = cc
order_eq (a ∷ s) (b ∷ t) h = ground (arith, order_eq s t)

order_merge : (a b c : List ℕ) → order a b ≡ same → order a c ≡ same → order b c ≡ same
order_merge a b c h k =
    let e : b ≡ c = sym (order_eq a b h) ∙ order_eq a c k in
    subst (λ d. order b d ≡ same) e (order_self b)

order-Collates : Collates order
order-Collates = record { self = order_self; flip = order_flip; merge = order_merge }

-- Neighbours change places; the number counts the runs of the handlers.
swap_next : List (Command ℕ) → ℕ → List (Command ℕ)
swap_next [] n = []
swap_next (a ∷ []) n = a ∷ []
swap_next (a ∷ b ∷ cs) zero = b ∷ a ∷ cs
swap_next (a ∷ b ∷ cs) (suc n) = a ∷ swap_next (b ∷ cs) n

swap : List (Command ℕ) → ℕ → ℕ → List (Command ℕ) × ℕ
swap cs n m = (swap_next cs n, n)

swap_next_append :
    (xs ys : List (Command ℕ)) (a b : Command ℕ) (n : ℕ)
    → n ≡ length xs
    → swap_next (xs ++ a ∷ b ∷ ys) n ≡ xs ++ b ∷ a ∷ ys
unfolding swap_next
swap_next_append [] ys a b zero h = refl
swap_next_append [] ys a b (suc n) h = absurd (omega (arith, h))
swap_next_append (x ∷ xs) ys a b zero h = absurd (omega (arith, h))
swap_next_append (x ∷ []) ys a b (suc n) h =
    ap (◌∷◌ x) (swap_next_append [] ys a b n (omega (arith, h)))
swap_next_append (x ∷ y ∷ xs) ys a b (suc n) h =
    ap (◌∷◌ x) (swap_next_append (y ∷ xs) ys a b n (omega (arith, h)))

swap-Swaps : Swaps order swap
unfolding swap
swap-Swaps = record { swaps = λ xs ys a b n h. ap (λ zs. (zs, n)) (swap_next_append xs ys a b n h) }

never : List ℕ → List ℕ → Bool
never s t = false

abbrev room : ℕ → Bool
room n = true

abbrev run_mem : ℕ → ℕ × ℕ
run_mem s = (0, s + 1)

abbrev unset : Profiles
unset = record { text = none; size = 0 }

abbrev bare : Registry ℕ
bare = record { commands = []; profiles = unset; blocks = 0 }

abbrev mem : Command ℕ
mem = record {
  name = codes "mem";
  handler = run_mem;
  can_affect_le = true;
  man_file_name = 0;
  hii_handle = 0;
  man_format_help = 0;
}

abbrev named : Profiles
named = record { text = some (codes ";Debug;"); size = 24 }

bare-IsValid : IsValid order bare
bare-IsValid = record { sorted = tt; balanced = refl }

bare_new : is_command_on_list order swap never [] (codes "mem") ≡ false
unfolding is_command_on_list find_command
bare_new = refl

debug_named : add_profile order swap never room unset (codes "Debug") ≡ some named
unfolding add_profile strn_cat_grow grow_loop
debug_named = refl

register_command_name-IsValid_example :
    (register_command_name order swap never true true room bare mem (codes "Debug")
      ≡ some (success, with_command order bare mem named))
    × IsValid order (with_command order bare mem named)
register_command_name-IsValid_example =
    register_command_name-IsValid order swap never order-Collates swap-Swaps room bare mem
      (codes "Debug") named bare-IsValid bare_new debug_named

mem_registered :
    register_command_name order swap never true true room bare mem (codes "Debug")
    ≡ some (success, with_command order bare mem named)
mem_registered =
    (register_command_name-IsValid order swap never order-Collates swap-Swaps room bare mem
      (codes "Debug") named bare-IsValid bare_new debug_named).0

run_command_handler-register_example :
    run_command_handler order swap never (with_command order bare mem named) (codes "mem") 5
    ≡ run_now order swap never order-Collates swap-Swaps mem 5
unfolding order
run_command_handler-register_example =
    run_command_handler-register order swap never order-Collates swap-Swaps room bare
      (with_command order bare mem named) mem (codes "Debug") (codes "mem") 5 named bare_new
      debug_named mem_registered

known : List ℕ → List ℕ → Bool
known s t = true

abbrev run_other : ℕ → ℕ × ℕ
run_other s = (0, s)

abbrev exit : Command ℕ
exit = record mem { name = codes "exit"; handler = run_other }

abbrev reset : Command ℕ
reset = record mem { name = codes "reset"; handler = run_other }

abbrev rooms : Command ℕ → Bool × Bool
rooms c = (true, true)

-- The three commands, in the order of their names.
abbrev filled : Registry ℕ
filled = record bare { commands = exit ∷ mem ∷ reset ∷ []; profiles = named; blocks = 6 }

all_installed :
    commands_constructor order swap known success rooms room
      (installed order swap known run_mem run_other run_other 0)
      bare
    ≡ some (success, filled)
unfolding commands_constructor register_all register_command_name is_command_on_list find_command
    insert_node add_profile strn_cat_grow grow_loop sort_loop order swap swap_next known
all_installed = refl

abbrev services : InitServices
services = record {
  platform_lang = true;
  handles = some (3 ∷ 4 ∷ []);
  open_protocol = λ h. if h == 3 then error not_found else success;
  has_language = λ h. true;
}

abbrev calls : Calls
calls = record {
  open_protocol = success;
  register_key = λ n. success;
  create_event = error out_of_resources;
  signal_event = success;
  unregister_key = λ h. elim h [ none ↦ error invalid_parameter | some n ↦ success ];
}

abbrev driver : Driver ℕ
driver = record {
  collation = none;
  registry = bare;
  exit_requested = true;
  history = codes "mem" ∷ [];
  parameters_held = false;
  monitor = idle;
}

collation_found : (command_init services none).1 ≡ some 4
unfolding command_init find_collation
collation_found = refl

stops_run :
    efi_error (uefi_console_stop_monitor calls (uefi_console_start_monitor calls idle).1).0 ≡ false
unfolding uefi_console_stop_monitor uefi_console_start_monitor
stops_run = refl

abbrev entered_driver : Driver ℕ
entered_driver = record {
  collation = some 4;
  registry = filled;
  exit_requested = false;
  history = [];
  parameters_held = true;
  monitor = (uefi_console_start_monitor calls idle).1;
}

entry_run :
    uefi_console_entry order swap known services calls rooms room true
      (installed order swap known run_mem run_other run_other 0)
      driver
    ≡ some (error out_of_resources, entered_driver)
unfolding uefi_console_entry start_driver command_init find_collation uefi_console_start_monitor
    commands_constructor register_all register_command_name is_command_on_list find_command
    insert_node add_profile strn_cat_grow grow_loop sort_loop order swap swap_next known
entry_run = refl

uefi_console_unload-entry_example :
    Unloaded order swap known order-Collates swap-Swaps services calls
      (unload order swap known order-Collates swap-Swaps services calls entered_driver).1
uefi_console_unload-entry_example =
    uefi_console_unload-entry order swap known order-Collates swap-Swaps services calls rooms room
      (installed order swap known run_mem run_other run_other 0) driver entered_driver
      (error out_of_resources) refl refl stops_run entry_run
