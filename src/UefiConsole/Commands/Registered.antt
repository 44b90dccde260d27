-- ===== src/UefiConsole/Commands/Registered.antt =====
-- The list of commands of ConsoleCommand.c stays valid, and a command that was registered is run.
use uefi_toolkit_pkg.Base.{
  ℕ, ◌+◌, ◌*◌, ◌≡◌, refl, ap, subst, Bool, true, false, List, length, Option, some, if◌then◌else◌,
  arith, inl, inr, Bool-cases, Status, success,
}
use uefi_toolkit_pkg.UefiConsole.Commands.{
  Sign, below, same, above, Command, Profiles, Registry, is_command_on_list, on_found,
  run_command_handler, add_profile, insert_node, register_command_name,
}
use uefi_toolkit_pkg.UefiConsole.Commands.Sorted.{
  Collates, IsSorted, insert_sorted, Swaps, sort_loop_inserts, insert_sorted-IsSorted,
}
use uefi_toolkit_pkg.UefiConsole.Commands.Found.{
  find, Unlike_of_none, not_on_list, none_same, find-insert_same, find-insert_other,
  length-insert_sorted,
}

-- Two names are the same to StriColl.
abbrev pub is_same : Sign → Bool
is_same same = true
is_same below = false
is_same above = false

is_same-eq : (s : Sign) → is_same s ≡ true → s ≡ same
is_same-eq same h = refl
is_same-eq below h = cc
is_same-eq above h = cc

module _ {S : Type 0} (coll : List ℕ → List ℕ → Sign) where
  -- The names are sorted, none twice in a row, and each node holds two blocks of the pool.
  pub record IsValid (r : Registry S) : Type 0 where
    pub sorted : IsSorted coll r.commands
    pub balanced : r.blocks ≡ 2 * length r.commands

  -- The list with a new command at its place.
  abbrev pub with_command : Registry S → Command S → Profiles → Registry S
  with_command r c profiles = record r {
    commands = insert_sorted coll c r.commands;
    profiles = profiles;
    blocks = r.blocks + 2;
  }

  module _ (swap : List (Command S) → ℕ → ℕ → List (Command S) × ℕ)
      (has_text : List ℕ → List ℕ → Bool) (collates : Collates coll) (swaps : Swaps coll swap) where
    pub registered :
        (room : ℕ → Bool) (r : Registry S) (c : Command S) (profile : List ℕ) (q : Profiles)
        → is_command_on_list coll swap has_text r.commands c.name ≡ false
        → add_profile coll swap has_text room r.profiles profile ≡ some q
        → register_command_name coll swap has_text true true room r c profile
          ≡ some (success, with_command r c q)
    unfolding register_command_name insert_node
    registered room r c profile q new named =
        let unlike =
          Unlike_of_none coll swap has_text r.commands c.name
            (not_on_list coll swap has_text r.commands c.name new) in
        let moved = sort_loop_inserts coll collates swap swaps has_text c r.commands unlike in
        rw (new, named, moved) refl

    pub with_command-IsValid :
        (r : Registry S) (c : Command S) (q : Profiles)
        → IsValid r
        → is_command_on_list coll swap has_text r.commands c.name ≡ false
        → IsValid (with_command r c q)
    with_command-IsValid r c q valid new =
        let unlike =
          Unlike_of_none coll swap has_text r.commands c.name
            (not_on_list coll swap has_text r.commands c.name new) in
        record {
          sorted = insert_sorted-IsSorted coll collates c r.commands unlike valid.sorted;
          balanced =
              omega (
                arith,
                valid.balanced,
                length-insert_sorted coll swap has_text c r.commands unlike,
              );
        }

    -- A name that is not on the list, with room for its node and its copy, and a profile list that can
    -- be had: ConsoleCommandRegisterCommandName returns success, with the command at its place in a
    -- list that is sorted again and the blocks of its node held, if the list was valid, StriColl is
    -- an order, and SwapListEntries swaps neighbours.
    pub register_command_name-IsValid :
        (room : ℕ → Bool) (r : Registry S) (c : Command S) (profile : List ℕ) (q : Profiles)
        → IsValid r
        → is_command_on_list coll swap has_text r.commands c.name ≡ false
        → add_profile coll swap has_text room r.profiles profile ≡ some q
        → (register_command_name coll swap has_text true true room r c profile
            ≡ some (success, with_command r c q))
          × IsValid (with_command r c q)
    register_command_name-IsValid room r c profile q valid new named =
        (registered room r c profile q new named, with_command-IsValid r c q valid new)

    abbrev pub run_now : Command S → S → Status × Option (Bool × ℕ) × S
    run_now c s = let ran : ℕ × S = c.handler s in (success, some (c.can_affect_le, ran.0), ran.1)

    run_handler :
        (r r' : Registry S) (name : List ℕ) (s : S)
        → find coll swap has_text r.commands name ≡ find coll swap has_text r'.commands name
        → run_command_handler coll swap has_text r name s
          ≡ run_command_handler coll swap has_text r' name s
    unfolding run_command_handler
    run_handler r r' name s e = ap (λ o. on_found coll swap has_text o s) e

    run_found :
        (r : Registry S) (c : Command S) (name : List ℕ) (s : S)
        → find coll swap has_text r.commands name ≡ some c
        → run_command_handler coll swap has_text r name s ≡ run_now c s
    unfolding run_command_handler on_found
    run_found r c name s e = ap (λ o. on_found coll swap has_text o s) e

    -- Behind such a registration a command line runs the handler of the new command if its name is
    -- the same to StriColl, and else what it ran before, or nothing as before.
    pub run_command_handler-register :
        (room : ℕ → Bool) (r r' : Registry S) (c : Command S) (profile name : List ℕ) (s : S)
        (q : Profiles)
        → is_command_on_list coll swap has_text r.commands c.name ≡ false
        → add_profile coll swap has_text room r.profiles profile ≡ some q
        → register_command_name coll swap has_text true true room r c profile ≡ some (success, r')
        → run_command_handler coll swap has_text r' name s ≡ (
            if is_same (coll name c.name)
            then run_now c s
            else run_command_handler coll swap has_text r name s)
    run_command_handler-register room r r' c profile name s q new named done =
        let unlike =
          Unlike_of_none coll swap has_text r.commands c.name
            (not_on_list coll swap has_text r.commands c.name new) in
        let placed = registered room r c profile q new named in
        let result : with_command r c q ≡ r' = cc (placed, done) in
        subst
          (λ (u : Registry S). run_command_handler coll swap has_text u name s ≡ (
            if is_same (coll name c.name)
            then run_now c s
            else run_command_handler coll swap has_text r name s))
          result
          (elim (Bool-cases (is_same (coll name c.name))) [
            | inl equal ↦
                let e : coll name c.name ≡ same = is_same-eq (coll name c.name) equal in
                let others =
                  none_same coll swap has_text collates c.name r.commands name unlike e in
                rw equal (
                  run_found (with_command r c q) c name s
                    (find-insert_same coll swap has_text c r.commands name others unlike e))
            | inr other ↦ rw other (
                run_handler (with_command r c q) r name s (
                  find-insert_other coll swap has_text c r.commands name unlike
                    (λ e. cc (other, ap is_same e))))
          ])
