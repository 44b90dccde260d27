-- ===== src/UefiConsole/CommandLine/Arguments.antt =====
-- ParseCommandLineToArgs of Drivers/Dxe/UefiConsole/ConsoleParameters.c. A command line that is none
-- is NULL; `room` says of each parameter's number whether the pool has room for its copy.
pub mod Ends
pub mod Joined
use uefi_toolkit_pkg.Base.{
  ℕ, zero, suc, ◌+◌, Bool, true, false, ◌&&◌, List, [], ◌∷◌, ◌++◌, Option, none, some, and_then,
  length, ◌==◌, if◌then◌else◌, Status, success, error, invalid_parameter, out_of_resources,
  efi_error,
}
use uefi_toolkit_pkg.UefiConsole.CommandLine.{trim_spaces}
use uefi_toolkit_pkg.UefiConsole.CommandLine.Next.{NextParameter, get_next_parameter}

-- The pool's answers: for NewCommandLine, TempParameter, the array and each copy.
pub record Pool : Type 0 where
  pub line_room : Bool
  pub temp_room : Bool
  pub array_room : Bool
  pub room : ℕ → Bool

-- *Argv and *Argc: not written, the array NULL, or the parameters, with their count.
pub data Arguments : Type 0 where
  kept : Arguments
  no_array : Arguments
  none_given : Arguments
  given : List (List ℕ) → ℕ → Arguments

-- Walker is not NULL and does not point at the NUL.
abbrev pub has_more : Option (List ℕ) → Bool
has_more none = false
has_more (some []) = false
has_more (some (c ∷ w)) = true

abbrev pub pointed : Option (List ℕ) → List ℕ
pointed none = []
pointed (some t) = t

module _ (get_next : Bool → Option (List ℕ) → Option (List ℕ) → NextParameter) where
  -- The loop that counts; none when the fuel is out.
  unfoldable pub count_loop : ℕ → Option (List ℕ) → Option (List ℕ) → Option ℕ
  count_loop zero walker temp = none
  count_loop (suc n) walker temp =
      let next : NextParameter = get_next true walker temp in
      let rest = and_then (count_loop n next.1 next.2) (λ count. some (1 + count)) in
      if has_more walker then if efi_error next.0 then some 0 else rest else some 0

  -- The loop that copies, from parameter `i` on: the status and the parameters.
  unfoldable pub copy_loop :
      Bool → (ℕ → Bool) → ℕ → ℕ → Option (List ℕ) → Option (Status × List (List ℕ))
  copy_loop strip room zero i walker = none
  copy_loop strip room (suc n) i walker =
      let next : NextParameter = get_next strip walker (some []) in
      let rest =
        and_then (copy_loop strip room n (i + 1) next.1)
          (λ end. some (end.0, pointed next.2 ∷ end.1)) in
      if has_more walker
      then if efi_error next.0
        then some (error invalid_parameter, [])
        else if room i
        then rest
        else some (error out_of_resources, [])
      else some (success, [])

module _ (debug : Bool) (str_n_cpy_s : ℕ → List ℕ → ℕ → List ℕ → List ℕ) (pool : Pool) where
  -- From the label where the array is allocated to its last entry, on the trimmed line.
  unfoldable pub fill_array : Bool → List ℕ → Option (Status × Arguments)
  fill_array strip line =
      let size : ℕ = length line + 1 in
      let copied =
        and_then
          (copy_loop (λ st. get_next_parameter debug str_n_cpy_s st size) strip pool.room (size + 1)
            0 (some line))
          (λ end. some (end.0, given end.1 (length end.1))) in
      and_then
        (count_loop (λ st. get_next_parameter debug str_n_cpy_s st size) (size + 1) (some line)
          (some []))
        (λ count. if pool.array_room then copied else some (error out_of_resources, no_array))

  unfoldable pub parse_command_line_to_args : Option (List ℕ) → Bool → Option (Status × Arguments)
  parse_command_line_to_args none strip = some (success, none_given)
  parse_command_line_to_args (some command_line) strip =
      let filled = fill_array strip (trim_spaces command_line) in
      if length command_line == 0
      then some (success, none_given)
      else if pool.line_room && pool.temp_room
      then filled
      else some (error out_of_resources, kept)
