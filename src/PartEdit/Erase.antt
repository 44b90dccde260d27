-- ===== src/PartEdit/Erase.antt =====
-- ErasePartition of PartEdit.c.
pub mod Erased
use uefi_toolkit_pkg.Base.{
  ℕ, zero, suc, ◌+◌, ◌-◌, ◌/◌, ◌%◌, ◌^◌, Bool, true, false, Option, none, some, and_then, Bytes,
  replicate, ltb, ◌==◌, if◌then◌else◌, Status, success, error, efi_error, out_of_resources,
}
use uefi_toolkit_pkg.PartEdit.{Machine, open_partition, partition_size}
use uefi_toolkit_pkg.PartEdit.Sparse.{fill_buf_size}

module _ {D : Type 0} (m : Machine D) where
  -- The while loop on fuel, and FlushBlocks after it.
  unfoldable pub erase_loop : ℕ → ℕ → ℕ → ℕ → D → Option (Status × D)
  erase_loop zero handle left offset disk = none
  erase_loop (suc fuel) handle left offset disk =
      let count = if ltb fill_buf_size left then fill_buf_size else left in
      let written = m.write_blocks handle offset (replicate count 0) disk in
      let rest =
        erase_loop fuel handle (left - count) ((offset + count / m.block_size handle) % 2 ^ 64)
          written.1 in
      if left == 0
      then some (success, m.flush_blocks handle disk)
      else if efi_error written.0
      then some written
      else rest

  -- ErasePartition; `can` tells whether the fill buffer is allocated.
  unfoldable pub erase_partition : Bool → Bytes → D → Option (Status × D)
  erase_partition can name disk =
      let opened = open_partition m name in
      let size = partition_size m opened.1 in
      if efi_error opened.0
      then some (opened.0, disk)
      else if can
      then erase_loop (suc size) opened.1 size 0 disk
      else some (error out_of_resources, disk)
