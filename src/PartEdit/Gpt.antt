-- ===== src/PartEdit/Gpt.antt =====
-- EraseGptTable and SaveGptTable of PartEdit.c, with PartEdit.h.
pub mod Erased
use uefi_toolkit_pkg.Base.{
  ℕ, ◌+◌, ◌-◌, ◌*◌, ◌/◌, ◌%◌, ◌^◌, Bool, true, false, List, Option, none, some, Bytes, codes,
  replicate, if◌then◌else◌, Status, success, error, efi_error, invalid_parameter, out_of_resources,
}
use uefi_toolkit_pkg.PartEdit.{Machine}
use uefi_toolkit_pkg.PartEdit.Files.{Shell, save_file_to_disk}

abbrev pub max_gpt_entries : ℕ
max_gpt_entries = 128

abbrev pub gpt_entry_size : ℕ
gpt_entry_size = 128

abbrev pub entries_size : ℕ
entries_size = max_gpt_entries * gpt_entry_size

module _ {D : Type 0} (m : Machine D) where
  -- The bytes of the protective MBR, the primary header and the entries.
  unfoldable pub primary_size : ℕ → ℕ
  primary_size handle = (2 * m.block_size handle % 2 ^ 32 + entries_size) % 2 ^ 64

  -- Where the secondary entries start, and their bytes with the secondary header.
  unfoldable pub secondary_offset : ℕ → ℕ
  secondary_offset handle =
      (m.last_block handle + 2 ^ 64 - entries_size / m.block_size handle)
      % 2 ^ 64
      * m.block_size handle
      % 2 ^ 64

  unfoldable pub secondary_size : ℕ → ℕ
  secondary_size handle = (m.block_size handle + entries_size) % 2 ^ 64

  unfoldable pub erase_secondary : (ℕ → Bool) → ℕ → D → Status × D
  erase_secondary can handle disk =
      let size = secondary_size handle in
      let written = m.write_disk handle (secondary_offset handle) (replicate size 0) disk in
      if can size
      then if efi_error written.0 then written else (written.0, m.flush_blocks handle written.1)
      else (error out_of_resources, disk)

  unfoldable pub erase_primary : (ℕ → Bool) → ℕ → D → Status × D
  erase_primary can handle disk =
      let size = primary_size handle in
      let written = m.write_disk handle 0 (replicate size 0) disk in
      let rest = erase_secondary can handle written.1 in
      if can size
      then if efi_error written.0 then written else rest
      else (error out_of_resources, disk)

  -- EraseGptTable; `none` stands for NULL, and `can` tells which sizes the pool has room for.
  unfoldable pub erase_gpt_table : (ℕ → Bool) → Option ℕ → D → Status × D
  erase_gpt_table can none disk = (error invalid_parameter, disk)
  erase_gpt_table can (some handle) disk = erase_primary can handle disk

  module _ {F : Type 0} (shell : Shell F) where
    -- One table: read it and save it in a file.
    unfoldable pub save_table : (ℕ → Bool) → ℕ → ℕ → ℕ → List ℕ → D → F → Status × F
    save_table can handle offset size name disk files =
        let table = m.read_disk handle offset size disk in
        let saved = save_file_to_disk shell name table.1 files in
        if can size
        then if efi_error table.0 then (table.0, files) else saved
        else (error out_of_resources, files)

    unfoldable pub save_gpt_table : (ℕ → Bool) → Option ℕ → D → F → Status × D × F
    save_gpt_table can none disk files = (error invalid_parameter, disk, files)
    save_gpt_table can (some handle) disk files =
        let primary =
          save_table can handle 0 (primary_size handle) (codes "PrimarySave.bin") disk files in
        let secondary =
          save_table can handle (secondary_offset handle) (secondary_size handle)
            (codes "SecondarySave.bin") disk primary.1 in
        if efi_error primary.0
        then (primary.0, disk, primary.1)
        else if efi_error secondary.0
        then (secondary.0, disk, secondary.1)
        else (secondary.0, m.flush_blocks handle disk, secondary.1)
