-- ===== src/UefiConsole/Reset.antt =====
-- The command reset, Drivers/Dxe/UefiConsole/Reset.c. A failed ASSERT ends the model, and so does
-- ResetSystem: what would follow it is left out, and so is the release of the package.
use uefi_toolkit_pkg.Base.{
  ℕ, Bool, true, false, ◌||◌, List, [], ◌∷◌, Option, none, some, codes, if◌then◌else◌, Status,
  efi_error,
}
use uefi_toolkit_pkg.UefiConsole.Package.{
  Compare, PackagePool, arguments_of, ParamItem, Param, type_value, command_line_parse, get_flag,
  get_value, get_raw_value,
}
use uefi_toolkit_pkg.UefiConsole.Run.{ShellParameters}
use uefi_toolkit_pkg.UefiConsole.Exit.{shell_invalid_parameter, is_corrupted}

-- EFI_RESET_TYPE.
pub data ResetType : Type 0 where
  reset_cold reset_warm reset_shutdown : ResetType

-- The command's status, or the call of ResetSystem with its text, or a failed ASSERT.
pub data ResetOutcome : Type 0 where
  reset_status : ℕ → ResetOutcome
  reset_system : ResetType → Option (List ℕ) → ResetOutcome
  reset_asserts : ResetOutcome

abbrev pub reset_param_list : List ParamItem
reset_param_list =
    record { name = codes "-w"; type = type_value }
    ∷ record { name = codes "-s"; type = type_value }
    ∷ record { name = codes "-c"; type = type_value }
    ∷ record { name = codes "-p"; type = type_value }
    ∷ []

abbrev pub is_given : Option (List ℕ) → Bool
is_given none = false
is_given (some text) = true

module _ (compare : Compare) (pool : PackagePool) where
  abbrev pub has_flag : Option (List Param) → List ℕ → Bool
  has_flag items key = get_flag compare pool items (some key)

  abbrev pub key_value : Option (List Param) → List ℕ → Option (List ℕ)
  key_value items key = get_value compare pool items (some key)

  -- Warm, then shutdown, then cold as the default.
  unfoldable pub choose_reset : Option (List Param) → ResetOutcome
  choose_reset items =
      if has_flag items (codes "-w")
      then if has_flag items (codes "-s")
          || has_flag items (codes "-c")
          || has_flag items (codes "-p")
        then reset_status shell_invalid_parameter
        else reset_system reset_warm (key_value items (codes "-w"))
      else if has_flag items (codes "-s")
      then if has_flag items (codes "-c") || has_flag items (codes "-p")
        then reset_status shell_invalid_parameter
        else reset_system reset_shutdown (key_value items (codes "-s"))
      else reset_system reset_cold (key_value items (codes "-c"))

  unfoldable pub on_reset_package : Status × Option (List Param) × Option (List ℕ) → ResetOutcome
  on_reset_package (status, items, problem) =
      if efi_error status
      then if is_corrupted status
        then if is_given problem then reset_status shell_invalid_parameter else reset_asserts
        else reset_asserts
      else if has_flag items (codes "-?")
      then reset_asserts
      else if is_given (get_raw_value items 1)
      then reset_status shell_invalid_parameter
      else choose_reset items

  unfoldable pub shell_command_run_reset : ShellParameters → ResetOutcome
  shell_command_run_reset p =
      on_reset_package (command_line_parse compare pool reset_param_list false (arguments_of p))
