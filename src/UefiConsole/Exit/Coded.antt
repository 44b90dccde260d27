-- ===== src/UefiConsole/Exit/Coded.antt =====
-- The exit code of the command exit, Drivers/Dxe/UefiConsole/Exit.c.
use uefi_toolkit_pkg.Base.{
  ℕ, ◌^◌, ◌≡◌, ◌∙◌, refl, ap, true, false, List, [], ◌∷◌, All, none, some, length, ltb,
  if◌then◌else◌, Bool-cases, inl, inr, arith,
}
use uefi_toolkit_pkg.UefiConsole.Numbers.Spelling.{Spelled}
use uefi_toolkit_pkg.UefiConsole.Numbers.Converted.{convert_string_to_uint64-Spelled}
use uefi_toolkit_pkg.UefiConsole.Package.{Compare, PackagePool, get_raw_value}
use uefi_toolkit_pkg.UefiConsole.Package.Pieces.{Plain}
use uefi_toolkit_pkg.UefiConsole.Package.Given.{given_words, unescaped-Spelled, given-Reads}
use uefi_toolkit_pkg.UefiConsole.Package.Read.{positions, at_or}
use uefi_toolkit_pkg.UefiConsole.Run.{Console, register_exit}
use uefi_toolkit_pkg.UefiConsole.Exit.{
  shell_invalid_parameter, on_return, on_package, shell_command_run_exit,
}

second_position :
    (name t : List ℕ) (more : List (List ℕ)) (v : ℕ)
    → Spelled false t v
    → at_or (positions (given_words (name ∷ t ∷ more))) 1 none ≡ some t
unfolding positions at_or
second_position name t more v h = ap some (unescaped-Spelled false t v h)

module _ {S : Type 0} (held : ℕ) (compare : Compare) (pool : PackagePool) where
  returned :
      (c : Console S) (t : List ℕ) (v : ℕ)
      → Spelled false t v
      → on_return held c (some t)
        ≡ (if ltb v (2 ^ 64) then (0, register_exit v c) else (shell_invalid_parameter, c))
  unfolding on_return
  returned c t v h = elim (Bool-cases (ltb v (2 ^ 64))) [
    | inl fits ↦ rw (convert_string_to_uint64-Spelled 0 false false t v h, fits) refl
    | inr large ↦ rw (convert_string_to_uint64-Spelled 0 false false t v h, large) refl
  ]

  -- If the command line is the command's name and behind it a text that spells a number, none of
  -- them a flag, and further parameters that are none: when the pool has room, the command exit asks to exit (or takes the
  -- request back, if there was one) with the number as the exit code if it has 64 bits, and returns
  -- 0; else it returns SHELL_INVALID_PARAMETER and changes nothing.
  pub shell_command_run_exit-Spelled :
      (c : Console S) (name t : List ℕ) (more : List (List ℕ)) (v : ℕ)
      → pool.head_room ≡ true
      → ((i : ℕ) → pool.node_room i ≡ true)
      → ((i : ℕ) → pool.text_room i ≡ true)
      → c.parameters ≡ record {
        argv = some (name ∷ t ∷ more);
        argc = length (name ∷ t ∷ more);
        dangling = false;
      }
      → All (Plain compare pool [] false false) (name ∷ t ∷ more)
      → Spelled false t v
      → shell_command_run_exit held compare pool c
        ≡ some (if ltb v (2 ^ 64) then (0, register_exit v c) else (shell_invalid_parameter, c))
  unfolding shell_command_run_exit
  shell_command_run_exit-Spelled c name t more v head node_room text_room given plain spelled =
      let parsed =
        given-Reads compare pool [] c.parameters name (t ∷ more) head node_room text_room given
          plain in
      let second : get_raw_value (some parsed.0) 1 ≡ some t =
        parsed.2.raw 1 (omega arith) ∙ second_position name t more v spelled in
      ap (on_package held c) parsed.1
      ∙ ap (λ o. some (on_return held c o)) second
      ∙ ap some (returned c t v spelled)
