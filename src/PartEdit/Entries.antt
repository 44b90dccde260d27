-- ===== src/PartEdit/Entries.antt =====
-- FreePartitionList, ReadPartitionEntries and InitDiskPartition of PartEdit.c: the list of the
-- partitions. The protocols, the layout of the GPT and ALIGN_VALUE are parameters.
use uefi_toolkit_pkg.Base.{
  ℕ, ◌-◌, ◌*◌, Bool, ◌&&◌, ◌||◌, List, [], ◌∷◌, ◌++◌, Option, none, some, and_then, Bytes, leb,
  ◌==◌, if◌then◌else◌, Status, success, error, efi_error, device_error, out_of_resources,
}
use uefi_toolkit_pkg.PartEdit.{Partition}

-- The fields of EFI_PARTITION_TABLE_HEADER that are used.
pub record GptHeader : Type 0 where
  pub signature : ℕ
  pub my_lba : ℕ
  pub size_of_partition_entry : ℕ
  pub number_of_partition_entries : ℕ

-- The disk as a block device, the sizes that the pool has room for, EFI_PTAB_HEADER_ID, and
-- PartitionEntries[n].PartitionName, if the buffer has it.
pub record Gpt : Type 0 where
  pub media_block_size : ℕ
  pub can : ℕ → Bool
  pub read_blocks : ℕ → ℕ → Status × Bytes
  pub gpt_header : Bytes → GptHeader
  pub ptab_header_id : ℕ
  pub align_value : ℕ → ℕ → ℕ
  pub partition_name : Bytes → ℕ → Option (List ℕ)

-- IS_ALPHA, as it is written.
unfoldable pub is_alpha : ℕ → Bool
is_alpha c = (leb c 122 && leb 97 c) || (leb c 90 && leb 90 c)

-- The second half of ReadPartitionEntries. The test for NULL is that of a pointer that is never
-- NULL, and the pointer that FreePool gets is none of the pool: both are undefined.
unfoldable pub read_entries : Gpt → GptHeader → Option (Status × Bytes)
read_entries g h =
    let size =
      g.align_value (h.size_of_partition_entry * h.number_of_partition_entries)
        g.media_block_size in
    let got = g.read_blocks 2 size in
    if g.can size then if efi_error got.0 then none else some got else none

unfoldable pub read_partition_entries : Gpt → Option (Status × Bytes)
read_partition_entries g =
    let got = g.read_blocks 1 g.media_block_size in
    let h = g.gpt_header got.1 in
    let entries = read_entries g h in
    if g.can g.media_block_size
    then if efi_error got.0
      then some (got.0, [])
      else if h.signature == g.ptab_header_id && h.my_lba == 1
      then entries
      else some (error device_error, [])
    else some (error out_of_resources, [])

-- A handle with BlockIo: whether its device path starts with that of the disk, the partition number
-- of its hard drive node, if it has one, and whether an entry for it can be allocated.
pub record Child : Type 0 where
  pub handle : ℕ
  pub below_disk : Bool
  pub partition_number : Option ℕ
  pub room : Bool

-- The entry for a partition. On an error FreePartitionList empties the list.
unfoldable pub add_partition :
    Child → Option (List ℕ) → List Partition → Option (Status × List Partition)
add_partition c none partitions = none
add_partition c (some name) partitions =
    some (success, partitions ++ record { partition_name = name; partition_handle = c.handle } ∷ [])

unfoldable pub on_child :
    Gpt → Bytes → Child → Option ℕ → List Partition → Option (Status × List Partition)
on_child g entries c none partitions = some (success, partitions)
on_child g entries c (some number) partitions =
    if number == 0
    then some (success, partitions)
    else if c.room
    then add_partition c (g.partition_name entries (number - 1)) partitions
    else some (error out_of_resources, [])

-- The loop over the handles.
unfoldable pub child_loop :
    Gpt → Bytes → List Child → List Partition → Option (Status × List Partition)
child_loop g entries [] partitions = some (success, partitions)
child_loop g entries (c ∷ children) partitions =
    let skipped = child_loop g entries children partitions in
    let added = and_then (on_child g entries c c.partition_number partitions) (λ r.
      let rest = child_loop g entries children r.1 in if efi_error r.0 then some r else rest) in
    if c.below_disk then added else skipped

-- With the entries: an error in reading them is no error.
unfoldable pub on_entries : Gpt → List Child → Status × Bytes → Option (Status × List Partition)
on_entries g children r =
    let listed = child_loop g r.1 children [] in
    if efi_error r.0 then some (success, []) else listed

-- InitDiskPartition, with the statuses of LocateDevicePath and OpenProtocol.
unfoldable pub init_disk_partition :
    Status → Status → Gpt → List Child → Option (Status × List Partition)
init_disk_partition located opened g children =
    let listed = and_then (read_partition_entries g) (on_entries g children) in
    if efi_error located
    then some (success, [])
    else if efi_error opened
    then some (error device_error, [])
    else listed
