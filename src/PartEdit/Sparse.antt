-- ===== src/PartEdit/Sparse.antt =====
-- FlashSparseImage and FlashPartition of PartEdit.c. Buffer is the list of its bytes; a read behind
-- it has no result.
pub mod Fill
pub mod Image
pub mod Flashed
use uefi_toolkit_pkg.Base.{
  ℕ, zero, suc, ◌+◌, ◌-◌, ◌*◌, ◌%◌, ◌^◌, Bool, true, false, List, [], ◌∷◌, ◌++◌, Option, none, some,
  and_then, Bytes, length, take, drop, ltb, leb, ◌==◌, if◌then◌else◌, Status, success, error,
  efi_error, invalid_parameter, out_of_resources,
}
use uefi_toolkit_pkg.PartEdit.{Machine, write_partition}

abbrev pub sparse_header_magic : ℕ
sparse_header_magic = 0xed26ff3a

abbrev pub chunk_type_raw : ℕ
chunk_type_raw = 0xcac1

abbrev pub chunk_type_fill : ℕ
chunk_type_fill = 0xcac2

abbrev pub chunk_type_dont_care : ℕ
chunk_type_dont_care = 0xcac3

abbrev pub chunk_type_crc32 : ℕ
chunk_type_crc32 = 0xcac4

abbrev pub fill_buf_size : ℕ
fill_buf_size = 0x1000000

-- The number that little-endian bytes stand for.
abbrev pub from_le : Bytes → ℕ
from_le [] = 0
from_le (b ∷ bytes) = b + 256 * from_le bytes

-- A field of a packed structure in memory.
unfoldable pub field : ℕ → ℕ → Bytes → Option ℕ
field at size bytes =
    if leb (at + size) (length bytes) then some (from_le (take size (drop at bytes))) else none

-- The fields of SPARSE_HEADER that the code uses.
pub record SparseHeader : Type 0 where
  pub major_version : ℕ
  pub file_header_size : ℕ
  pub block_size : ℕ
  pub total_chunks : ℕ

-- The same of CHUNK_HEADER.
pub record ChunkHeader : Type 0 where
  pub chunk_type : ℕ
  pub chunk_size : ℕ

unfoldable pub sparse_header : Bytes → Option SparseHeader
sparse_header image = and_then (field 4 2 image) (λ major.
    and_then (field 8 2 image) (λ header_size. and_then (field 12 4 image) (λ block_size.
      and_then (field 20 4 image) (λ chunks. some (record {
        major_version = major;
        file_header_size = header_size;
        block_size = block_size;
        total_chunks = chunks;
      })))))

unfoldable pub chunk_header : Bytes → Option ChunkHeader
chunk_header image = and_then (field 0 2 image) (λ chunk_type.
    and_then (field 4 4 image)
      (λ chunk_size. some (record { chunk_type = chunk_type; chunk_size = chunk_size })))

-- SetMem32 of `count` bytes with the four bytes of a value.
abbrev pub set_mem32 : ℕ → Bytes → Bytes
set_mem32 zero value = []
set_mem32 (suc count) [] = []
set_mem32 (suc count) (b ∷ value) = b ∷ set_mem32 count (value ++ b ∷ [])

module _ {D : Type 0} (m : Machine D) (name : Bytes) where
  -- The while loop of CHUNK_TYPE_FILL on fuel.
  unfoldable pub fill_loop : ℕ → ℕ → ℕ → Bytes → D → Option (Status × D)
  fill_loop zero left offset image disk = none
  fill_loop (suc fuel) left offset image disk =
      let count = if ltb fill_buf_size left then fill_buf_size else left in
      let filled = set_mem32 count (take 4 image) in
      let next = and_then (write_partition m name offset filled count disk) (λ r.
        let rest = fill_loop fuel (left - count) ((offset + count) % 2 ^ 64) image r.1 in
        if efi_error r.0 then some r else rest) in
      if left == 0 then some (success, disk) else if ltb (length image) 4 then none else next

  -- The for loop over the chunks that are left; `status` is that of the last write.
  unfoldable pub chunk_loop : ℕ → ℕ → Bytes → ℕ → Status → D → Option (Status × D)
  chunk_loop block_size zero image offset status disk = some (status, disk)
  chunk_loop block_size (suc chunks) image offset status disk =
      and_then (chunk_header image) (λ header.
        let behind = drop 12 image in
        let size = header.chunk_size * block_size % 2 ^ 64 in
        let next = (offset + size) % 2 ^ 64 in
        let raw =
          and_then
            (write_partition m name offset behind (header.chunk_size * block_size % 2 ^ 32) disk)
            (λ r.
              let rest = chunk_loop block_size chunks (drop size behind) next r.0 r.1 in
              if efi_error r.0 then some r else rest) in
        let filled = and_then (fill_loop (suc size) size offset behind disk) (λ r.
          let last = if size == 0 then status else r.0 in
          let rest = chunk_loop block_size chunks (drop 4 behind) next last r.1 in
          if efi_error r.0 then some r else rest) in
        if header.chunk_type == chunk_type_raw
        then raw
        else if header.chunk_type == chunk_type_fill
        then filled
        else if header.chunk_type == chunk_type_dont_care
        then chunk_loop block_size chunks behind next status disk
        else chunk_loop block_size chunks behind offset status disk)

  -- FlashSparseImage; `can` tells whether the fill buffer is allocated.
  unfoldable pub flash_sparse_image : Bool → Bytes → D → Option (Status × D)
  flash_sparse_image can image disk = and_then (sparse_header image) (λ header.
      if can
      then chunk_loop header.block_size header.total_chunks (drop header.file_header_size image) 0
          success disk
      else some (error out_of_resources, disk))

  -- FlashPartition of a buffer that is not NULL.
  unfoldable pub flash_partition : Bool → Bytes → D → Option (Status × D)
  flash_partition can image disk =
      let sparse = and_then (sparse_header image) (λ header.
        if header.major_version == 1
        then flash_sparse_image can image disk
        else some (error invalid_parameter, disk)) in
      and_then (field 0 4 image) (λ magic.
        if magic == sparse_header_magic
        then sparse
        else write_partition m name 0 image (length image) disk)
