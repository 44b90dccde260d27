-- ===== src/PartEdit/Sparse/Image.antt =====
-- Sparse images, the input of FlashSparseImage of PartEdit.c, and what they make of a partition.
use uefi_toolkit_pkg.Base.{
  ℕ, zero, suc, ◌+◌, ◌-◌, ◌*◌, ◌/◌, ◌%◌, ◌^◌, ◌≤◌, ◌<◌, ◌≡◌, refl, ap, ap₂, ◌∙◌, true, List, [],
  ◌∷◌, ◌++◌, some, arith, Bytes, length, length-append, take, drop, take-append, drop-append, leb,
}
use uefi_toolkit_pkg.PartEdit.Sparse.{
  sparse_header_magic, chunk_type_raw, chunk_type_fill, chunk_type_dont_care, from_le, field,
  sparse_header, chunk_header, set_mem32,
}

-- `n` in `count` bytes.
abbrev pub to_le : ℕ → ℕ → Bytes
to_le zero n = []
to_le (suc count) n = n % 256 ∷ to_le count (n / 256)

-- The chunks that are supported, each with its number of blocks: bytes, a value of four bytes that
-- is repeated, or nothing to write.
pub data Chunk : Type 0 where
  raw : ℕ → Bytes → Chunk
  fill : ℕ → ℕ → ℕ → ℕ → ℕ → Chunk
  dont_care : ℕ → Chunk

abbrev pub blocks : Chunk → ℕ
blocks (raw n bytes) = n
blocks (fill n a b c d) = n
blocks (dont_care n) = n

abbrev pub encode_header : ℕ → ℕ → ℕ → Bytes → Bytes
encode_header chunk_type n total rest =
    to_le 2 chunk_type ++ (to_le 2 0 ++ (to_le 4 n ++ (to_le 4 total ++ rest)))

abbrev pub encode_chunk : Chunk → Bytes → Bytes
encode_chunk (raw n bytes) rest = encode_header chunk_type_raw n (12 + length bytes) (bytes ++ rest)
encode_chunk (fill n a b c d) rest = encode_header chunk_type_fill n 16 (a ∷ b ∷ c ∷ d ∷ rest)
encode_chunk (dont_care n) rest = encode_header chunk_type_dont_care n 12 rest

abbrev pub encode_chunks : List Chunk → Bytes
encode_chunks [] = []
encode_chunks (c ∷ chunks) = encode_chunk c (encode_chunks chunks)

-- Version 1.0, with the header sizes 28 and 12, and no checksum.
abbrev pub sparse_image : ℕ → ℕ → List Chunk → Bytes
sparse_image block_size total_blocks chunks =
    to_le 4 sparse_header_magic
    ++ (to_le 2 1
        ++ (to_le 2 0
            ++ (to_le 2 28
                ++ (to_le 2 12
                    ++ (to_le 4 block_size
                        ++ (to_le 4 total_blocks
                            ++ (to_le 4 (length chunks)
                                ++ (to_le 4 0 ++ encode_chunks chunks))))))))

-- What a chunk of `n` bytes makes of the bytes at its place.
abbrev pub content : Chunk → ℕ → Bytes → Bytes
content (raw k bytes) n old = bytes
content (fill k a b c d) n old = set_mem32 n (a ∷ b ∷ c ∷ d ∷ [])
content (dont_care k) n old = old

-- The partition with the chunks one after the other, and the bytes behind them as they were.
abbrev pub painted : ℕ → List Chunk → Bytes → Bytes
painted block_size [] old = old
painted block_size (c ∷ chunks) old =
    let n = blocks c * block_size in
    content c n (take n old) ++ painted block_size chunks (drop n old)

-- A chunk below 4 GiB whose data is as long as it says.
abbrev pub Sized : ℕ → Chunk → Type 0
Sized size (raw n bytes) = (n < 2 ^ 32) × (size < 2 ^ 32) × (length bytes ≡ size)
Sized size (fill n a b c d) = (n < 2 ^ 32) × (size < 2 ^ 32) × (size % 4 ≡ 0)
Sized size (dont_care n) = (n < 2 ^ 32) × (size < 2 ^ 32)

-- All of them, in a partition with `room` bytes.
abbrev pub Fit : ℕ → ℕ → List Chunk → Type 0
Fit block_size room [] = Unit {0}
Fit block_size room (c ∷ chunks) =
    Sized (blocks c * block_size) c
    × (blocks c * block_size ≤ room)
    × Fit block_size (room - blocks c * block_size) chunks

from_le-to_le4 : (n : ℕ) → n < 2 ^ 32 → from_le (to_le 4 n) ≡ n
from_le-to_le4 n h = omega arith

field_lem :
    (at size : ℕ) (xs ys zs : Bytes)
    → at ≡ length xs
    → size ≡ length ys
    → field at size (xs ++ (ys ++ zs)) ≡ some (from_le ys)
unfolding field
field_lem at size xs ys zs before here =
    let whole = length-append xs (ys ++ zs) in
    let inner = length-append ys zs in
    let inside : leb (at + size) (length (xs ++ (ys ++ zs))) ≡ true =
      ground (arith, whole, inner) in
    let part : take size (drop at (xs ++ (ys ++ zs))) ≡ ys =
      ap₂ (λ i j. take j (drop i (xs ++ (ys ++ zs)))) before here
      ∙ ap (take (length ys)) (drop-append xs (ys ++ zs))
      ∙ take-append ys zs in
    rw (inside, part) refl

pub chunk_header_lem :
    (chunk_type n total : ℕ) (rest : Bytes)
    → chunk_type < 2 ^ 16
    → n < 2 ^ 32
    → chunk_header (encode_header chunk_type n total rest)
      ≡ some (record { chunk_type = chunk_type; chunk_size = n })
unfolding chunk_header
chunk_header_lem chunk_type n total rest small_type small =
    let image = encode_header chunk_type n total rest in
    let first : field 0 2 image ≡ some (from_le (to_le 2 chunk_type)) =
      field_lem 0 2 [] (to_le 2 chunk_type) _ refl refl in
    let second : field 4 4 image ≡ some (from_le (to_le 4 n)) =
      field_lem 4 4 (to_le 2 chunk_type ++ to_le 2 0) (to_le 4 n) (to_le 4 total ++ rest) refl
        refl in
    let type_value : from_le (to_le 2 chunk_type) ≡ chunk_type = omega arith in
    rw (first, second)
      (ap₂ (λ t k. some (record { chunk_type = t; chunk_size = k })) type_value
        (from_le-to_le4 n small))

pub sparse_header_lem :
    (block_size total_blocks : ℕ) (chunks : List Chunk)
    → block_size < 2 ^ 32
    → length chunks < 2 ^ 32
    → sparse_header (sparse_image block_size total_blocks chunks)
      ≡ some (record {
        major_version = 1;
        file_header_size = 28;
        block_size = block_size;
        total_chunks = length chunks;
      })
unfolding sparse_header
sparse_header_lem block_size total_blocks chunks small few =
    let image = sparse_image block_size total_blocks chunks in
    let start = to_le 4 sparse_header_magic in
    let sizes = start ++ to_le 2 1 ++ to_le 2 0 in
    let counts = sizes ++ to_le 2 28 ++ to_le 2 12 in
    let major : field 4 2 image ≡ some 1 = field_lem 4 2 start (to_le 2 1) _ refl refl in
    let header_size : field 8 2 image ≡ some 28 = field_lem 8 2 sizes (to_le 2 28) _ refl refl in
    let block : field 12 4 image ≡ some (from_le (to_le 4 block_size)) =
      field_lem 12 4 counts (to_le 4 block_size) _ refl refl in
    let total : field 20 4 image ≡ some (from_le (to_le 4 (length chunks))) =
      field_lem 20 4 (counts ++ to_le 4 block_size ++ to_le 4 total_blocks)
        (to_le 4 (length chunks)) _ refl refl in
    rw (major, header_size, block, total)
      (ap₂
        (λ b t.
          some
            (record { major_version = 1; file_header_size = 28; block_size = b; total_chunks = t }))
        (from_le-to_le4 block_size small) (from_le-to_le4 (length chunks) few))

pub magic_lem :
    (block_size total_blocks : ℕ) (chunks : List Chunk)
    → field 0 4 (sparse_image block_size total_blocks chunks) ≡ some sparse_header_magic
magic_lem block_size total_blocks chunks =
    field_lem 0 4 [] (to_le 4 sparse_header_magic) _ refl refl
