-- ===== src/PartEdit/Dump.antt =====
-- DumpHex, and the commands of PartEdit.c that copy parts of the disk: SavePartitionData,
-- SaveDiskData, WriteDataToDisk and DumpDiskData.
pub mod Lines
use uefi_toolkit_pkg.Base.{
  ℕ, zero, suc, ◌+◌, ◌-◌, ◌*◌, ◌/◌, ◌%◌, ◌^◌, Bool, true, false, ◌||◌, List, [], ◌∷◌, Option, none,
  some, and_then, Bytes, codes, length, get_or, take, drop, ltb, ◌==◌, if◌then◌else◌, Status,
  success, error, efi_error, invalid_parameter, out_of_resources, volume_full,
}
use uefi_toolkit_pkg.PartEdit.{Machine, open_partition, partition_size}
use uefi_toolkit_pkg.PartEdit.Files.{Shell, save_file_to_disk, read_file_from_disk}

-- Hex[]
abbrev pub hex_digits : Bytes
hex_digits = codes "0123456789ABCDEF"

-- What is printed for 16 bytes, or for the last ones: Offset, and Val and Str without their NULs.
pub record Line : Type 0 where
  pub offset : ℕ
  pub val : Bytes
  pub str : Bytes

unfoldable pub separator : ℕ → ℕ
separator index = if index == 7 then 45 else 32

unfoldable pub printable : ℕ → ℕ
printable b = if ltb b 32 || ltb 126 b then 46 else b

-- Val of the bytes from `index` on.
unfoldable pub line_val : ℕ → Bytes → Bytes
line_val index [] = []
line_val index (b ∷ bytes) =
    get_or hex_digits (b / 16) 0
    ∷ get_or hex_digits (b % 16) 0
    ∷ separator index
    ∷ line_val (index + 1) bytes

unfoldable pub line_str : Bytes → Bytes
line_str [] = []
line_str (b ∷ bytes) = printable b ∷ line_str bytes

-- The while loop of DumpHex on fuel, over `size` bytes of the data; a read behind it has no result.
unfoldable pub dump_loop : ℕ → ℕ → ℕ → Bytes → Option (List Line)
dump_loop zero offset size user_data = none
dump_loop (suc fuel) offset size user_data =
    let n = if ltb size 16 then size else 16 in
    let bytes = take n user_data in
    let line : Line = record { offset = offset; val = line_val 0 bytes; str = line_str bytes } in
    let rest =
      and_then (dump_loop fuel ((offset + n) % 2 ^ 64) (size - n) (drop n user_data))
        (λ lines. some (line ∷ lines)) in
    if size == 0 then some [] else if ltb (length user_data) n then none else rest

unfoldable pub dump_hex : ℕ → ℕ → Bytes → Option (List Line)
dump_hex offset size user_data = dump_loop (suc size) offset size user_data

module _ {D : Type 0} {F : Type 0} (m : Machine D) (shell : Shell F) (can : ℕ → Bool) where
  -- `size` bytes of the disk, saved in a file.
  unfoldable pub save_region : ℕ → List ℕ → ℕ → ℕ → D → F → Status × F
  save_region handle name offset size disk files =
      let got = m.read_disk handle offset size disk in
      let saved = save_file_to_disk shell name got.1 files in
      if can size
      then if efi_error got.0 then (got.0, files) else saved
      else (error out_of_resources, files)

  -- SaveDiskData; the handle is that of the parent, `none` stands for NULL.
  unfoldable pub save_disk_data : Option ℕ → List ℕ → ℕ → ℕ → D → F → Status × F
  save_disk_data none name offset size disk files = (error invalid_parameter, files)
  save_disk_data (some handle) name offset size disk files =
      save_region handle name offset size disk files

  -- SavePartitionData; SIZE_2GB is a parameter.
  unfoldable pub save_partition_data : ℕ → Bytes → List ℕ → D → F → Status × F
  save_partition_data size_2gb partition name disk files =
      let opened = open_partition m partition in
      let size = partition_size m opened.1 in
      let saved = save_region opened.1 name 0 size disk files in
      if efi_error opened.0
      then (opened.0, files)
      else if ltb size_2gb size
      then (error volume_full, files)
      else saved

  -- The write of WriteDataToDisk; `size` bytes are read from the buffer.
  unfoldable pub write_buffer : ℕ → ℕ → ℕ → Bytes → D → Option (Status × D)
  write_buffer handle offset size buffer disk =
      let written = m.write_disk handle offset (take size buffer) disk in
      if ltb (length buffer) size
      then none
      else if efi_error written.0
      then some written
      else some (success, m.flush_blocks handle written.1)

  unfoldable pub write_data_to_disk : ℕ → List ℕ → ℕ → ℕ → D → F → Option (Status × D × F)
  write_data_to_disk handle name offset size disk files =
      let got = read_file_from_disk shell can name files in
      let temp_size = if size == 0 then length got.1 else size in
      let written =
        and_then (write_buffer handle offset temp_size got.1 disk) (λ r. some (r.0, r.1, got.2)) in
      if efi_error got.0 then some (got.0, disk, got.2) else written

  -- DumpDiskData: the status and what is printed for the block.
  unfoldable pub dump_disk_data : Option ℕ → ℕ → Bool → D → Option (Status × List Line)
  dump_disk_data none offset is_lba disk = some (error invalid_parameter, [])
  dump_disk_data (some handle) offset is_lba disk =
      let size = m.block_size handle in
      let dump_offset = if is_lba then offset * size % 2 ^ 64 else offset in
      let got = m.read_disk handle dump_offset size disk in
      let dumped = and_then (dump_hex 0 size got.1) (λ lines. some (success, lines)) in
      if can size
      then if efi_error got.0 then some (got.0, []) else dumped
      else some (error out_of_resources, [])
