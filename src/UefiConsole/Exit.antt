-- ===== src/UefiConsole/Exit.antt =====
-- The command exit, Drivers/Dxe/UefiConsole/Exit.c. A failed ASSERT
-- ends the model; the release of the package is left out.
pub mod Coded
use uefi_toolkit_pkg.Base.{
  ℕ, Bool, true, false, ◌&&◌, List, [], ◌∷◌, map, Option, none, some, take, if◌then◌else◌, Status,
  success, warning, error, volume_corrupted, efi_error,
}
use uefi_toolkit_pkg.UefiConsole.Numbers.{
  Stored, stores, kept, indeterminate, convert_string_to_uint64,
}
use uefi_toolkit_pkg.UefiConsole.Package.{
  Compare, PackagePool, Param, arguments_of, command_line_parse, get_raw_value,
}
use uefi_toolkit_pkg.UefiConsole.Run.{Console, register_exit}

-- SHELL_INVALID_PARAMETER.
abbrev pub shell_invalid_parameter : ℕ
shell_invalid_parameter = 2

abbrev pub is_corrupted : Status → Bool
is_corrupted (error volume_corrupted) = true
is_corrupted _ = false

-- What ConsoleConvertStringToUint64 leaves in RetVal; `held` is what was there.
abbrev pub stored_value : ℕ → Stored → ℕ
stored_value held (stores v) = v
stored_value held kept = held
stored_value held indeterminate = held

module _ {S : Type 0} (held : ℕ) where
  -- The exit code from the parameter behind the command's name.
  unfoldable pub on_return : Console S → Option (List ℕ) → ℕ × Console S
  on_return c none = (0, register_exit 0 c)
  on_return c (some text) =
      let converted : Status × Stored = convert_string_to_uint64 0 true false false (some text) in
      if efi_error converted.0
      then (shell_invalid_parameter, c)
      else (0, register_exit (stored_value held converted.1) c)

  abbrev pub on_package :
      Console S → Status × Option (List Param) × Option (List ℕ) → Option (ℕ × Console S)
  on_package c (status, items, problem) =
      let refused : Option (ℕ × Console S) = elim problem [
        | none ↦ none
        | some text ↦ if is_corrupted status then some (shell_invalid_parameter, c) else none
      ] in
      if efi_error status then refused else some (on_return c (get_raw_value items 1))

  unfoldable pub shell_command_run_exit : Compare → PackagePool → Console S → Option (ℕ × Console S)
  shell_command_run_exit compare pool c =
      on_package c (command_line_parse compare pool [] false (arguments_of c.parameters))

  -- As a handler: behind an ASSERT that failed, the code goes on to return SHELL_SUCCESS.
  unfoldable pub handle_exit : Compare → PackagePool → Console S → ℕ × Console S
  handle_exit compare pool c = elim (shell_command_run_exit compare pool c) [
    | none ↦ (0, c)
    | some ran ↦ ran
  ]
