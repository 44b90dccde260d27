-- ===== src/UefiConsole/Commands.antt =====
-- The list of commands in Drivers/Dxe/UefiConsole/ConsoleCommand.c, and ConsoleStrnCatGrow of
-- ConsoleParameters.c for its profile names. The linked list is the list of its nodes, a pointer to
-- a node its place there. StriColl, SwapListEntries, StrStr and the pool are parameters; sizes are
-- those of blocks of the pool, so their sums do not wrap around.
pub mod Sorted
pub mod Found
pub mod Lifetime
pub mod Registered
use uefi_toolkit_pkg.Base.{
  ℕ, zero, suc, ◌+◌, ◌*◌, ◌-◌, Bool, true, false, ◌&&◌, ◌||◌, not, List, [], ◌∷◌, ◌++◌, Option,
  none, some, codes, length, take, and_then, ltb, ◌==◌, if◌then◌else◌, Status, success, error,
  out_of_resources, device_error, other_error, not_found, efi_error,
}

-- The sign of what StriColl returns.
pub data Sign : Type 0 where
  below same above : Sign

-- SHELL_COMMAND_INTERNAL_LIST_ENTRY; a handler runs on the state of the system.
pub record Command (S : Type 0) : Type 0 where
  pub name : List ℕ
  pub handler : S → ℕ × S
  pub can_affect_le : Bool
  pub man_file_name : ℕ
  pub hii_handle : ℕ
  pub man_format_help : ℕ

-- mProfileList and mProfileListSize.
pub record Profiles : Type 0 where
  pub text : Option (List ℕ)
  pub size : ℕ

-- mCommandList, the profiles, and the blocks of the pool held for the nodes.
pub record Registry (S : Type 0) : Type 0 where
  pub commands : List (Command S)
  pub profiles : Profiles
  pub blocks : ℕ

-- The while loop over NewSize, on fuel.
unfoldable pub grow_loop : ℕ → ℕ → ℕ → ℕ → ℕ
grow_loop zero size needed step = size
grow_loop (suc fuel) size needed step =
    let rest = grow_loop fuel (size + step) needed step in if ltb size needed then rest else size

abbrev pub start_size : Option (List ℕ) → ℕ
start_size none = 0
start_size (some s) = 2 * (length s + 1)

abbrev pub append_text : Option (List ℕ) → List ℕ → List ℕ
append_text none source = source
append_text (some s) source = s ++ source

-- Without a block there is nothing to append to.
abbrev pub cat_here : Option (List ℕ) → List ℕ → Option (List ℕ)
cat_here none source = none
cat_here (some s) source = some (s ++ source)

-- ConsoleStrnCatGrow with a size; `room` says whether the pool has room for the larger block.
unfoldable pub strn_cat_grow : Bool → Profiles → List ℕ → ℕ → Profiles
unfolding grow_loop
strn_cat_grow room p source count =
    let text : Option (List ℕ) = if p.size == 0 then none else p.text in
    let n : ℕ = if count == 0 then length source else count in
    let needed : ℕ = start_size text + 2 * n in
    let size : ℕ = grow_loop (suc needed) p.size needed (4 * n) in
    if ltb p.size needed
    then if room
      then record { text = some (append_text text (take n source)); size = size }
      else record { text = none; size = size }
    else record { text = cat_here text (take n source); size = p.size }

abbrev pub is_some {ℓ} : {A : Type ℓ} → Option A → Bool
is_some none = false
is_some (some a) = true

abbrev already_started : Status
already_started = error (other_error 20)

module _ {S : Type 0} (coll : List ℕ → List ℕ → Sign)
    (swap : List (Command S) → ℕ → ℕ → List (Command S) × ℕ)
    (has_text : List ℕ → List ℕ → Bool) where
  -- The first command of that name.
  unfoldable pub find_command : List (Command S) → List ℕ → Option (Command S)
  find_command [] name = none
  find_command (c ∷ cs) name =
      let rest = find_command cs name in
      elim (coll name c.name) [ same ↦ some c | below ↦ rest | above ↦ rest ]

  -- ShellCommandIsCommandOnInternalList and ShellCommandIsCommandOnList.
  unfoldable pub is_command_on_list : List (Command S) → List ℕ → Bool
  unfolding find_command
  is_command_on_list cs name = is_some (find_command cs name)

  -- The handler's status and CanAffectLE, or RETURN_NOT_FOUND.
  unfoldable pub on_found : Option (Command S) → S → Status × Option (Bool × ℕ) × S
  on_found none s = (error not_found, none, s)
  on_found (some c) s =
      let ran : ℕ × S = c.handler s in (success, some (c.can_affect_le, ran.0), ran.1)

  unfoldable pub run_command_handler : Registry S → List ℕ → S → Status × Option (Bool × ℕ) × S
  run_command_handler r name s = on_found (find_command r.commands name) s

  abbrev pub name_at : List (Command S) → ℕ → List ℕ
  name_at [] i = []
  name_at (c ∷ cs) zero = c.name
  name_at (c ∷ cs) (suc i) = name_at cs i

  -- What follows a comparison; after a swap the first node is where the second was.
  abbrev pub on_sign :
      (List (Command S) → ℕ → ℕ → Option (List (Command S)))
      → List (Command S)
      → ℕ
      → ℕ
      → Sign
      → Option (List (Command S))
  on_sign next nodes previous command above =
      let swapped : List (Command S) × ℕ = swap nodes previous command in
      next swapped.0 command (swapped.1 + 1)
  on_sign next nodes previous command below = some nodes
  on_sign next nodes previous command same = next nodes previous (command + 1)

  -- The loop that moves a new command to its place, on fuel.
  unfoldable pub sort_loop : ℕ → List (Command S) → ℕ → ℕ → Option (List (Command S))
  sort_loop zero nodes previous command = none
  sort_loop (suc fuel) nodes previous command =
      let next =
        on_sign (sort_loop fuel) nodes previous command
          (coll (name_at nodes previous) (name_at nodes command)) in
      if ltb command (length nodes) then next else some nodes

  -- The profile names: none is a failed ASSERT. `room` counts the allocations.
  unfoldable pub add_profile : (ℕ → Bool) → Profiles → List ℕ → Option Profiles
  unfolding strn_cat_grow
  add_profile room p profile =
      let opened : Profiles =
        if is_some p.text then p else strn_cat_grow (room 0) p (codes ";") 0 in
      let named : Profiles = strn_cat_grow (room 1) opened profile 0 in
      let closed : Profiles = strn_cat_grow (room 2) named (codes ";") 0 in
      let known : Bool = elim p.text [ none ↦ false | some text ↦ has_text text profile ] in
      if ltb 0 (length profile) && not known
      then if is_some p.text || p.size == 0 then some closed else none
      else some p

  -- The node behind the head of the list: its place, unless an ASSERT failed.
  unfoldable pub insert_node :
      ℕ → (ℕ → Bool) → Registry S → Command S → List ℕ → Option (Status × Registry S)
  insert_node fuel room r c profile = and_then (add_profile room r.profiles profile) (λ profiles.
      and_then (sort_loop fuel (c ∷ r.commands) 0 0) (λ commands.
        some
          (success, record r { commands = commands; profiles = profiles; blocks = r.blocks + 2 })))

  -- ConsoleCommandRegisterCommandName, with the room for the node and for its name.
  unfoldable pub register_command_name :
      Bool → Bool → (ℕ → Bool) → Registry S → Command S → List ℕ → Option (Status × Registry S)
  register_command_name node_room name_room room r c profile =
      if is_command_on_list r.commands c.name
      then some (already_started, r)
      else if not node_room || not name_room
      then some (error out_of_resources, r)
      else insert_node (2 * length r.commands + 3) room r c profile

  -- ConsoleCommandsDestructor: the while loop takes the first node each time.
  unfoldable pub free_commands : List (Command S) → Registry S → Registry S
  free_commands [] r = record r { commands = [] }
  free_commands (c ∷ cs) r = free_commands cs (record r { commands = cs; blocks = r.blocks - 2 })

  unfoldable pub commands_destructor : Registry S → Registry S
  unfolding free_commands
  commands_destructor r = free_commands r.commands r

  -- ConsoleCommandsConstructor with the status of CommandInit: the commands are registered one
  -- after another, each with its room, and what that returns is not looked at.
  unfoldable pub register_all :
      (Command S → Bool × Bool) → (ℕ → Bool) → List (Command S) → Registry S → Option (Registry S)
  register_all rooms room [] r = some r
  register_all rooms room (c ∷ cs) r =
      and_then (register_command_name (rooms c).0 (rooms c).1 room r c (codes "Debug"))
        (λ done. register_all rooms room cs done.1)

  abbrev pub installed : (S → ℕ × S) → (S → ℕ × S) → (S → ℕ × S) → ℕ → List (Command S)
  installed run_mem run_exit run_reset debug_file =
      let base : Command S = record {
        name = codes "mem";
        handler = run_mem;
        can_affect_le = true;
        man_file_name = debug_file;
        hii_handle = 0;
        man_format_help = 0;
      } in
      base
      ∷ record base { name = codes "exit"; handler = run_exit }
      ∷ record base { name = codes "reset"; handler = run_reset }
      ∷ []

  unfoldable pub commands_constructor :
      Status
      → (Command S → Bool × Bool)
      → (ℕ → Bool)
      → List (Command S)
      → Registry S
      → Option (Status × Registry S)
  commands_constructor init rooms room cs r =
      let empty : Registry S = record r {
        commands = [];
        profiles = record { text = none; size = 0 };
      } in
      if efi_error init
      then some (error device_error, empty)
      else and_then (register_all rooms room cs empty) (λ filled. some (success, filled))
