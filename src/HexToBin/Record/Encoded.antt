-- ===== src/HexToBin/Record/Encoded.antt =====
-- What ProcessIntelHexFile does with a well-formed data record.
use uefi_toolkit_pkg.Base.{
  ℕ, zero, suc, ◌+◌, ◌-◌, ◌*◌, ◌/◌, ◌%◌, ◌^◌, ◌≤◌, ◌<◌, ◌≡◌, refl, ◌∙◌, true, false, [], ◌∷◌, ◌++◌,
  append_assoc, some, arith, Bytes, All, length, length-set, set, get_or, get_or-set_self,
  get_or-set_ne, ltb, ◌==◌, bit_and, bit_and_mask,
}
use uefi_toolkit_pkg.HexToBin.Digits.Pairs.{IsByte, hex_bytes, get_byte-pair, get_word-pairs}
use uefi_toolkit_pkg.HexToBin.Record.{
  ok, Image, copy_data, data_record, by_type, process_line, ◌>>=◌,
}

-- `bytes` written over `buffer` from `at` on.
abbrev pub overlay : Bytes → ℕ → Bytes → Bytes
overlay buffer at [] = buffer
overlay buffer at (b ∷ bytes) = overlay (set buffer at b) (at + 1) bytes

abbrev pub sum : Bytes → ℕ
sum [] = 0
sum (b ∷ bytes) = b + sum bytes

pub length-overlay :
    (bytes buffer : Bytes) (at : ℕ) → length (overlay buffer at bytes) ≡ length buffer
length-overlay [] buffer at = refl
length-overlay (b ∷ bytes) buffer at =
    omega (arith, length-overlay bytes (set buffer at b) (at + 1), length-set buffer at b)

-- Outside the bytes that are written the buffer is as it was.
pub get_or-overlay_outside :
    (bytes buffer : Bytes) (at i d : ℕ)
    → i < at
    → get_or (overlay buffer at bytes) i d ≡ get_or buffer i d
get_or-overlay_outside [] buffer at i d h = refl
get_or-overlay_outside (b ∷ bytes) buffer at i d h = ground (
  arith,
  get_or-overlay_outside bytes (set buffer at b) (at + 1) i d,
  get_or-set_ne buffer at i b d (omega arith),
)

pub get_or-overlay :
    (bytes buffer : Bytes) (at i d : ℕ)
    → i < length bytes
    → at + length bytes ≤ length buffer
    → get_or (overlay buffer at bytes) (at + i) d ≡ get_or bytes i d
get_or-overlay [] buffer at i d h fits = absurd (omega arith)
get_or-overlay (b ∷ bytes) buffer at zero d h fits =
    let e : at + 0 ≡ at = omega arith in
    rw e (
      get_or-overlay_outside bytes (set buffer at b) (at + 1) at d (omega arith)
      ∙ get_or-set_self buffer at b d (omega arith))
get_or-overlay (b ∷ bytes) buffer at (suc i) d h fits =
    let e : at + suc i ≡ at + 1 + i = omega arith in
    rw e (
      get_or-overlay bytes (set buffer at b) (at + 1) i d (omega arith)
        (omega (arith, length-set buffer at b)))

copy_data-overlay :
    (bytes rest buffer : Bytes) (at check_sum : ℕ)
    → All IsByte bytes
    → at + length bytes ≤ length buffer
    → copy_data (length bytes) (record {
      ptr = hex_bytes bytes ++ rest;
      buffer = buffer;
      bin_length = at;
      check_sum = check_sum;
    })
      ≡ ok (record {
        ptr = rest;
        buffer = overlay buffer at bytes;
        bin_length = at + length bytes;
        check_sum = check_sum + sum bytes;
      })
unfolding copy_data
copy_data-overlay [] rest buffer at check_sum h fits = ground arith
copy_data-overlay (b ∷ bytes) rest buffer at check_sum h fits =
    let room : ltb at (length buffer) ≡ true = ground arith in
    let size = length-set buffer at b in
    rw (get_byte-pair b (hex_bytes bytes ++ rest) h.0, room)
      (copy_data-overlay bytes rest (set buffer at b) (at + 1) (check_sum + b) h.1 (omega arith)
        ∙ ground arith)

-- A data record: its address and its bytes.
pub record DataRecord : Type 0 where
  pub address : ℕ
  pub bytes : Bytes

-- The bytes before the checksum: byte count, address, record type 0, data.
abbrev pub header : DataRecord → Bytes
header r = length r.bytes ∷ r.address / 256 ∷ r.address % 256 ∷ 0 ∷ []

-- The two's complement of the sum of the bytes before it.
abbrev pub checksum : DataRecord → ℕ
checksum r = (256 - (sum (header r) + sum r.bytes) % 256) % 256

-- ':' and the hex digits of the record and its checksum.
abbrev pub encode : DataRecord → Bytes
encode r = b':' ∷ hex_bytes (header r) ++ (hex_bytes r.bytes ++ hex_bytes (checksum r ∷ []))

-- A record that the line buffer and a binary of `size` bytes can take.
pub record Fits (size : ℕ) (r : DataRecord) : Type 0 where
  pub all_bytes : All IsByte r.bytes
  pub some_bytes : 0 < length r.bytes
  pub short : length r.bytes ≤ 121
  pub near : r.address < 2 ^ 16
  pub inside : r.address + length r.bytes ≤ size

-- The image with a record written into it.
abbrev pub write_record : DataRecord → Image → Image
write_record r image = record {
  buffer = overlay image.buffer r.address r.bytes;
  bin_length = some (r.address + length r.bytes);
  line_number = image.line_number + 1;
  reports = image.reports;
}

data_record-write :
    (r : DataRecord) (image : Image) (rest : Bytes)
    → Fits (length image.buffer) r
    → data_record
        (length r.bytes)
        r.address
        (sum (header r))
        (hex_bytes r.bytes ++ (hex_bytes (checksum r ∷ []) ++ rest))
        image
      ≡ ok (write_record r image)
unfolding data_record
data_record-write r image rest f =
    let total = sum (header r) + sum r.bytes in
    let zero_sum : (bit_and (total + checksum r) 0xff == 0) ≡ true =
      rw (bit_and_mask 8 (total + checksum r)) (ground arith) in
    rw
      (
        copy_data-overlay r.bytes (hex_bytes (checksum r ∷ []) ++ rest) image.buffer r.address
            (sum (header r)) f.all_bytes f.inside,
        get_byte-pair (checksum r) rest (omega arith),
        zero_sum,
      )
      refl

-- The fields of a record are read back, whatever its bytes do.
pub process_line-fields :
    (r : DataRecord) (image : Image) (rest : Bytes)
    → 0 < length r.bytes
    → length r.bytes < 256
    → r.address < 2 ^ 16
    → process_line (encode r ++ rest) image ≡ (
        data_record
          (length r.bytes)
          r.address
          (sum (header r))
          (hex_bytes r.bytes ++ (hex_bytes (checksum r ∷ []) ++ rest))
          image
        >>= λ image'. ok (some image'))
unfolding process_line by_type
process_line-fields r image rest some_bytes short near =
    let high = r.address / 256 in
    let low = r.address % 256 in
    let tail = hex_bytes r.bytes ++ (hex_bytes (checksum r ∷ []) ++ rest) in
    let some_data : (length r.bytes == 0) ≡ false = ground arith in
    let whole : high * 256 + low ≡ r.address = omega arith in
    let grouped : length r.bytes + high + low + 0 ≡ sum (header r) = omega arith in
    rw
      (
        append_assoc (hex_bytes r.bytes) (hex_bytes (checksum r ∷ [])) rest,
        get_byte-pair (length r.bytes) (hex_bytes (high ∷ low ∷ 0 ∷ []) ++ tail) (omega arith),
        some_data,
        get_word-pairs high low (hex_bytes (0 ∷ []) ++ tail) (omega arith) (omega arith),
        get_byte-pair high (hex_bytes (low ∷ 0 ∷ []) ++ tail) (omega arith),
        get_byte-pair low (hex_bytes (0 ∷ []) ++ tail) (omega arith),
        get_byte-pair 0 tail (omega arith),
        whole,
        grouped,
      )
      refl

-- A well-formed record is written at its address, whatever follows it in the line buffer, and its
-- checksum is not reported.
pub process_line-encode :
    (r : DataRecord) (image : Image) (rest : Bytes)
    → Fits (length image.buffer) r
    → process_line (encode r ++ rest) image ≡ ok (some (write_record r image))
process_line-encode r image rest f =
    rw
      (
        process_line-fields r image rest f.some_bytes (omega (arith, f.short)) f.near,
        data_record-write r image rest f,
      )
      refl
