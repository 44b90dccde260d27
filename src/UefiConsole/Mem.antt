-- ===== src/UefiConsole/Mem.antt =====
-- The command mem, Drivers/Dxe/UefiConsole/Mem.c: what it shows, and its status. A failed ASSERT
-- ends the model; the release of the package and of the buffer are left out. `held` is what was in
-- Address and Size; LocateProtocol, the pool and Mem.Read are parameters.
pub mod Ranged
use uefi_toolkit_pkg.Base.{
  ℕ, ◌^◌, Bool, true, false, ◌&&◌, ◌||◌, not, List, [], ◌∷◌, Option, none, some, codes, ltb, ◌==◌,
  if◌then◌else◌, Status, efi_error,
}
use uefi_toolkit_pkg.UefiConsole.Numbers.{convert_string_to_uint64, is_hex_or_decimal_number}
use uefi_toolkit_pkg.UefiConsole.Package.{
  Compare, PackagePool, arguments_of, ParamItem, Param, type_flag, command_line_parse, get_flag,
  get_raw_value, get_count,
}
use uefi_toolkit_pkg.UefiConsole.Run.{ShellParameters}
use uefi_toolkit_pkg.UefiConsole.Exit.{shell_invalid_parameter, is_corrupted, stored_value}
use uefi_toolkit_pkg.UefiConsole.Reset.{is_given}

unfoldable pub make_printable : ℕ → ℕ
make_printable char = if (ltb char 0x20 && ltb 0 char) || ltb 126 char then 63 else char

-- SHELL_NOT_FOUND and SHELL_OUT_OF_RESOURCES.
abbrev pub shell_not_found : ℕ
shell_not_found = 14

abbrev pub shell_out_of_resources : ℕ
shell_out_of_resources = 9

-- What DumpHex shows: the memory at an address, or that of a memory-mapped device.
pub data MemShown : Type 0 where
  shows_memory : ℕ → ℕ → MemShown
  shows_mmio : ℕ → ℕ → MemShown
  shows_nothing : MemShown

pub record MmioServices : Type 0 where
  pub located : Status
  pub buffer_room : ℕ → Bool
  pub read : ℕ → ℕ → Status

unfoldable pub display_mmio_memory : MmioServices → ℕ → ℕ → ℕ × MemShown
display_mmio_memory services address size =
    if efi_error services.located
    then (shell_not_found, shows_nothing)
    else if not (services.buffer_room size)
    then (shell_out_of_resources, shows_nothing)
    else if efi_error (services.read address size)
    then (shell_not_found, shows_nothing)
    else (0, shows_mmio address size)

abbrev pub mem_param_list : List ParamItem
mem_param_list = record { name = codes "-mmio"; type = type_flag } ∷ []

-- Whether a number is refused, and what is stored. `hex` is what IsHexOrDecimalNumber is asked for.
unfoldable pub mem_number : Bool → ℕ → List ℕ → Bool × ℕ
mem_number hex held text =
    let converted = convert_string_to_uint64 0 true true false (some text) in
    if not (is_hex_or_decimal_number 0 hex false (some text))
    then (true, held)
    else (efi_error converted.0, stored_value held converted.1)

abbrev pub number_or : Bool → ℕ → ℕ → Option (List ℕ) → Bool × ℕ
number_or hex held other none = (false, other)
number_or hex held other (some text) = mem_number hex held text

module _ (compare : Compare) (pool : PackagePool) (services : MmioServices) (system_table : ℕ) where
  -- Whether the arguments are refused, with the address and the size.
  unfoldable pub mem_range : Option (List Param) → Bool × ℕ × ℕ
  mem_range items =
      let address : Bool × ℕ = number_or true 0 system_table (get_raw_value items 1) in
      let size : Bool × ℕ = number_or false 0 512 (get_raw_value items 2) in
      if ltb 3 (get_count items)
      then (true, 0, 0)
      else if is_given (get_raw_value items 1)
      then (address.0 || size.0, address.1, size.1)
      else (false, system_table, 512)

  unfoldable pub on_mem_range : Option (List Param) → Bool × ℕ × ℕ → ℕ × MemShown
  on_mem_range items (refused, address, size) =
      let shown : ℕ × MemShown =
        if get_flag compare pool items (some (codes "-mmio"))
        then display_mmio_memory services address size
        else (0, shows_memory address size) in
      if refused then (shell_invalid_parameter, shows_nothing) else shown

  unfoldable pub on_mem_package :
      Status × Option (List Param) × Option (List ℕ) → Option (ℕ × MemShown)
  on_mem_package (status, items, problem) =
      if efi_error status
      then if is_corrupted status && is_given problem
        then some (shell_invalid_parameter, shows_nothing)
        else none
      else some (on_mem_range items (mem_range items))

  unfoldable pub shell_command_run_mem : ShellParameters → Option (ℕ × MemShown)
  shell_command_run_mem p =
      on_mem_package (command_line_parse compare pool mem_param_list false (arguments_of p))
