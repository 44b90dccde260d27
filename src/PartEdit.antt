-- ===== src/PartEdit.antt =====
-- Application/PartEdit/PartEdit.c: an editor for disk partitions. The protocols of the disk and the
-- text functions are parameters, over a type of disk states.
pub mod Stores
pub mod Sparse
pub mod Erase
pub mod Files
pub mod Gpt
pub mod Dump
pub mod Device
pub mod Entries
pub mod Main
use uefi_toolkit_pkg.Base.{
  ℕ, ◌+◌, ◌*◌, ◌%◌, ◌^◌, Bool, true, false, List, [], ◌∷◌, Option, none, some, Bytes, length, take,
  ltb, if◌then◌else◌, Status, success, error, efi_error, not_found, volume_full,
}

-- PARTITION_LIST: the name and the handle.
pub record Partition : Type 0 where
  pub partition_name : List ℕ
  pub partition_handle : ℕ

-- The partition list, OpenProtocol for its handles, their media, BlockIo and DiskIo, and the text
-- functions AsciiStrToUnicodeStrS and StrCmp, the latter as a test of equality.
pub record Machine (D : Type 0) : Type 0 where
  pub partitions : List Partition
  pub open_block_io : ℕ → Status
  pub open_disk_io : ℕ → Status
  pub block_size : ℕ → ℕ
  pub last_block : ℕ → ℕ
  pub read_disk : ℕ → ℕ → ℕ → D → Status × Bytes
  pub write_disk : ℕ → ℕ → Bytes → D → Status × D
  pub write_blocks : ℕ → ℕ → Bytes → D → Status × D
  pub flush_blocks : ℕ → D → D
  pub to_unicode : Bytes → List ℕ
  pub same_text : List ℕ → List ℕ → Bool

-- The search of OpenPartition.
unfoldable pub find_partition : (List ℕ → List ℕ → Bool) → List ℕ → List Partition → Option ℕ
find_partition same name [] = none
find_partition same name (p ∷ partitions) =
    if same p.partition_name name
    then some p.partition_handle
    else find_partition same name partitions

-- The two OpenProtocol calls.
unfoldable pub open_protocols : {D : Type 0} → Machine D → Option ℕ → Status × ℕ
open_protocols m none = (error not_found, 0)
open_protocols m (some handle) =
    if efi_error (m.open_block_io handle)
    then (m.open_block_io handle, handle)
    else if efi_error (m.open_disk_io handle)
    then (m.open_disk_io handle, handle)
    else (success, handle)

-- OpenPartition: the status and the handle whose protocols were opened.
unfoldable pub open_partition : {D : Type 0} → Machine D → Bytes → Status × ℕ
open_partition m name =
    open_protocols m (find_partition m.same_text (m.to_unicode name) m.partitions)

unfoldable pub partition_size : {D : Type 0} → Machine D → ℕ → ℕ
partition_size m handle = (m.last_block handle + 1) * m.block_size handle % 2 ^ 64

-- ReadPartition: the status and what was read.
unfoldable pub read_partition : {D : Type 0} → Machine D → Bytes → ℕ → ℕ → D → Status × Bytes
read_partition m name offset size disk =
    let opened = open_partition m name in
    let data_read = m.read_disk opened.1 offset size disk in
    if efi_error opened.0
    then (opened.0, [])
    else if ltb (partition_size m opened.1) size
    then (error volume_full, [])
    else if efi_error data_read.0
    then (data_read.0, [])
    else (success, data_read.1)

-- The end of WritePartition.
unfoldable pub flush_written : {D : Type 0} → Machine D → ℕ → Status × D → Status × D
flush_written m handle r = if efi_error r.0 then r else (success, m.flush_blocks handle r.1)

-- WritePartition of `size` bytes of what stands behind Buffer; a read behind it has no result.
unfoldable pub write_partition :
    {D : Type 0} → Machine D → Bytes → ℕ → Bytes → ℕ → D → Option (Status × D)
write_partition m name offset bytes size disk =
    let opened = open_partition m name in
    if efi_error opened.0
    then some (opened.0, disk)
    else if ltb (partition_size m opened.1) size
    then some (error volume_full, disk)
    else if ltb (length bytes) size
    then none
    else some (flush_written m opened.1 (m.write_disk opened.1 offset (take size bytes) disk))
