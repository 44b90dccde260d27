-- ===== src/Examples/ConsoleArguments.antt =====
-- A command line of two parameters, for Drivers/Dxe/UefiConsole/ConsoleParameters.c.
use uefi_toolkit_pkg.Base.{
  ℕ, ◌≡◌, refl, true, false, List, [], ◌∷◌, some, take, error, invalid_parameter,
}
use uefi_toolkit_pkg.UefiConsole.CommandLine.{
  is_space, trim_left, trim_right, trim_spaces, is_listed, walk, find_first_character,
}
use uefi_toolkit_pkg.UefiConsole.CommandLine.Trimmed.{EndsSolid, ends_in}
use uefi_toolkit_pkg.UefiConsole.CommandLine.Next.{
  find_end_of_parameter, skip_leading, clean, give_up, on_delim, get_next_parameter,
}
use uefi_toolkit_pkg.UefiConsole.CommandLine.Next.Escaped.{is_special, escape}
use uefi_toolkit_pkg.UefiConsole.CommandLine.Arguments.{
  Pool, given, count_loop, copy_loop, fill_array, parse_command_line_to_args,
}
use uefi_toolkit_pkg.UefiConsole.CommandLine.Arguments.Ends.{Ends, parse_command_line_to_args-Ends}
use uefi_toolkit_pkg.UefiConsole.CommandLine.Arguments.Joined.{Word, further, joined}

abbrev copy : ℕ → List ℕ → ℕ → List ℕ → List ℕ
copy max s n old = take n s

abbrev pool : Pool
pool = record { line_room = true; temp_room = true; array_room = true; room = λ n. true }

abbrev first : Word
first = (65, 32 ∷ 66 ∷ [])

abbrev others : List Word
others = (34, 67 ∷ []) ∷ []

line_ends : EndsSolid (joined first others)
unfolding escape is_special further is_space
line_ends = ends_in (65 ∷ 94 ∷ 32 ∷ 66 ∷ 32 ∷ 94 ∷ 34 ∷ []) 67 refl

line_starts : is_space 65 ≡ false
unfolding is_space
line_starts = refl

line_text : joined first others ≡ 65 ∷ 94 ∷ 32 ∷ 66 ∷ 32 ∷ 94 ∷ 34 ∷ 67 ∷ []
unfolding escape is_special further
line_text = refl

-- `A "B` has no closing quote: the first parameter is left, with an error.
parse_run :
    parse_command_line_to_args true copy pool (some (65 ∷ 32 ∷ 34 ∷ 66 ∷ [])) true
    ≡ some (error invalid_parameter, given ((65 ∷ []) ∷ []) 1)
unfolding parse_command_line_to_args fill_array count_loop copy_loop get_next_parameter on_delim
    give_up clean skip_leading find_end_of_parameter find_first_character walk is_listed trim_spaces
    trim_right trim_left is_space
parse_run = refl

parse_command_line_to_args-Ends_example :
    Ends (parse_command_line_to_args true copy pool (some (34 ∷ 32 ∷ 94 ∷ [])) true)
parse_command_line_to_args-Ends_example =
    parse_command_line_to_args-Ends true copy pool (some (34 ∷ 32 ∷ 94 ∷ [])) true
