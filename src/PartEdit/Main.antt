-- ===== src/PartEdit/Main.antt =====
-- ShellAppMain of PartEdit.c. What is printed is left out.
pub mod Unchanged
use uefi_toolkit_pkg.Base.{
  ℕ, Bool, true, false, ◌||◌, List, [], ◌∷◌, Option, none, some, and_then, Bytes, codes, length,
  get_or, ◌==◌, if◌then◌else◌, Status, success, error, efi_error, invalid_parameter,
  out_of_resources,
}
use uefi_toolkit_pkg.PartEdit.{Machine, Partition, read_partition}
use uefi_toolkit_pkg.PartEdit.Sparse.{flash_partition, fill_buf_size}
use uefi_toolkit_pkg.PartEdit.Erase.{erase_partition}
use uefi_toolkit_pkg.PartEdit.Files.{Shell, read_file_from_disk}
use uefi_toolkit_pkg.PartEdit.Gpt.{erase_gpt_table, save_gpt_table}
use uefi_toolkit_pkg.PartEdit.Dump.{
  save_disk_data, save_partition_data, write_data_to_disk, dump_disk_data, dump_hex,
}
use uefi_toolkit_pkg.PartEdit.Device.{Choice, fails, chosen}

-- UnicodeStrToAsciiStrS, StrHexToUintn, UnicodeSPrint of "%s.bin", SIZE_2GB, the sizes that the pool
-- has room for, and the handle behind the one that was chosen.
pub record Library : Type 0 where
  pub to_ascii : List ℕ → Bytes
  pub hex_to_uintn : List ℕ → ℕ
  pub bin_name : List ℕ → List ℕ
  pub size_2gb : ℕ
  pub can : ℕ → Bool
  pub parent : ℕ → ℕ

module _ {D : Type 0} {F : Type 0} (m : Machine D) (shell : Shell F) (lib : Library)
    (argv : List (List ℕ)) (parent : ℕ) where
  -- Argv[i] is one of two words.
  unfoldable pub is_word : ℕ → Bytes → Bytes → Bool
  is_word i lower upper =
      m.same_text (get_or argv i []) lower || m.same_text (get_or argv i []) upper

  abbrev argument : ℕ → List ℕ
  argument i = get_or argv i []

  abbrev with_disk : F → Status × D → Status × D × F
  with_disk files r = (r.0, r.1, files)

  unfoldable pub run_gpt : D → F → Option (Status × D × F)
  run_gpt disk files =
      if is_word 2 (codes "erase") (codes "ERASE")
      then some (with_disk files (erase_gpt_table m lib.can (some parent) disk))
      else if is_word 2 (codes "save") (codes "SAVE")
      then some (save_gpt_table m shell lib.can (some parent) disk files)
      else some (success, disk, files)

  unfoldable pub run_dump : Bool → D → F → Option (Status × D × F)
  run_dump is_lba disk files =
      and_then
        (dump_disk_data m shell lib.can (some parent) (lib.hex_to_uintn (argument 2)) is_lba disk)
        (λ r. some (r.0, disk, files))

  -- The commands with one argument. A word after gpt that is no command is passed over.
  unfoldable pub run_three : D → F → Option (Status × D × F)
  run_three disk files =
      let saved =
        save_partition_data m shell lib.can lib.size_2gb (lib.to_ascii (argument 2))
          (lib.bin_name (argument 2)) disk files in
      if is_word 1 (codes "gpt") (codes "GPT")
      then run_gpt disk files
      else if is_word 1 (codes "erase") (codes "ERASE")
      then and_then (erase_partition m (lib.can fill_buf_size) (lib.to_ascii (argument 2)) disk)
          (λ r. some (with_disk files r))
      else if is_word 1 (codes "dump") (codes "DUMP")
      then run_dump false disk files
      else if is_word 1 (codes "lba") (codes "LBA")
      then run_dump true disk files
      else if is_word 1 (codes "savepart") (codes "SAVEPART")
      then some (saved.0, disk, saved.1)
      else some (success, disk, files)

  -- flash.
  unfoldable pub run_four : D → F → Option (Status × D × F)
  run_four disk files =
      let got = read_file_from_disk shell lib.can (argument 3) files in
      let flashed =
        and_then (flash_partition m (lib.to_ascii (argument 2)) (lib.can fill_buf_size) got.1 disk)
          (λ r. some (with_disk got.2 r)) in
      if is_word 1 (codes "flash") (codes "FLASH")
      then if efi_error got.0 then some (got.0, disk, got.2) else flashed
      else some (success, disk, files)

  unfoldable pub run_read : D → F → Option (Status × D × F)
  run_read disk files =
      let size = lib.hex_to_uintn (argument 4) in
      let got =
        read_partition m (lib.to_ascii (argument 2)) (lib.hex_to_uintn (argument 3)) size disk in
      let dumped = and_then (dump_hex 0 size got.1) (λ lines. some (success, disk, files)) in
      if lib.can size
      then if efi_error got.0 then some (got.0, disk, files) else dumped
      else some (error out_of_resources, disk, files)

  -- The commands with three arguments.
  unfoldable pub run_five : D → F → Option (Status × D × F)
  run_five disk files =
      let offset = lib.hex_to_uintn (argument 2) in
      let size = lib.hex_to_uintn (argument 3) in
      let saved =
        save_disk_data m shell lib.can (some parent) (argument 4) offset size disk files in
      if is_word 1 (codes "read") (codes "READ")
      then run_read disk files
      else if is_word 1 (codes "save") (codes "SAVE")
      then some (saved.0, disk, saved.1)
      else if is_word 1 (codes "write") (codes "WRITE")
      then write_data_to_disk m shell lib.can parent (argument 4) offset size disk files
      else some (success, disk, files)

  -- ShellAppMain, by the number of words. -d prints only, and 0 is returned for what is no command.
  unfoldable pub run_command : D → F → Option (Status × D × F)
  run_command disk files =
      if length argv == 3
      then run_three disk files
      else if length argv == 4
      then run_four disk files
      else if length argv == 5
      then run_five disk files
      else some (success, disk, files)

module _ {D : Type 0} {F : Type 0} (m : Machine D) (shell : Shell F) (lib : Library)
    (argv : List (List ℕ)) where
  -- What follows InitDiskPartition.
  unfoldable pub on_partitions : ℕ → D → F → Status × List Partition → Option (Status × D × F)
  on_partitions index disk files r =
      let run =
        run_command (record m { partitions = r.1 }) shell lib argv (lib.parent index) disk files in
      if efi_error r.0 then some (r.0, disk, files) else run

  -- What follows InitDevicePath; `listed` is what InitDiskPartition comes to for the disk.
  unfoldable pub on_device :
      (ℕ → Option (Status × List Partition)) → D → F → Choice → Option (Status × D × F)
  on_device listed disk files (fails status) = some (status, disk, files)
  on_device listed disk files (chosen index) =
      and_then (listed index) (on_partitions index disk files)

  -- ShellAppMain; `room` tells whether mPartData is allocated.
  unfoldable pub shell_app_main :
      Bool
      → Option Choice
      → (ℕ → Option (Status × List Partition))
      → D
      → F
      → Option (Status × D × F)
  shell_app_main room device listed disk files =
      let run = and_then device (on_device listed disk files) in
      if length argv == 1
      then some (error invalid_parameter, disk, files)
      else if room
      then run
      else some (error out_of_resources, disk, files)
