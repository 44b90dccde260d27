-- ===== src/Examples/ConsoleCommandLine.antt =====
-- Runs on command lines, for Drivers/Dxe/UefiConsole/ConsoleParameters.c.
use uefi_toolkit_pkg.Base.{ℕ, ◌≡◌, refl, List, [], ◌∷◌, some, take}
use uefi_toolkit_pkg.UefiConsole.CommandLine.{
  is_space, trim_left, trim_right, trim_spaces, is_listed, walk, find_first_character,
}
use uefi_toolkit_pkg.UefiConsole.CommandLine.Next.{find_end_of_parameter}
use uefi_toolkit_pkg.UefiConsole.CommandLine.Next.Escaped.{is_special, escape}

abbrev copy : ℕ → List ℕ → ℕ → List ℕ → List ℕ
copy max s n old = take n s

abbrev more : List ℕ
more = 32 ∷ 66 ∷ []

escape_run : escape (65 ∷ 32 ∷ 66 ∷ []) ≡ 65 ∷ 94 ∷ 32 ∷ 66 ∷ []
unfolding escape is_special
escape_run = refl

find_end_of_parameter_run : find_end_of_parameter 9 (65 ∷ 34 ∷ 32 ∷ 34 ∷ 32 ∷ 66 ∷ []) ≡ some more
unfolding find_end_of_parameter find_first_character walk is_listed
find_end_of_parameter_run = refl

trim_spaces_run : trim_spaces (9 ∷ 32 ∷ 65 ∷ 32 ∷ 66 ∷ 32 ∷ []) ≡ 65 ∷ 32 ∷ 66 ∷ []
unfolding trim_spaces trim_right trim_left is_space
trim_spaces_run = refl
