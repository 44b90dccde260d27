-- ===== src/HexToBin/Record/Overflow.antt =====
-- What ProcessIntelHexFile does with a data record behind the end of the binary.
use uefi_toolkit_pkg.Base.{
  ℕ, ◌+◌, ◌^◌, ◌<◌, ◌≡◌, refl, false, [], ◌∷◌, ◌++◌, arith, Bytes, All, length, length-set, set,
  Bool-cases, inl, inr, ltb,
}
use uefi_toolkit_pkg.HexToBin.Digits.Pairs.{IsByte, hex_bytes, get_byte-pair}
use uefi_toolkit_pkg.HexToBin.Record.{
  fault, over_write, Image, copy_data, data_record, process_line,
}
use uefi_toolkit_pkg.HexToBin.Record.Encoded.{
  sum, DataRecord, header, checksum, encode, process_line-fields,
}

-- Past the end of the binary the first byte that does not fit faults.
copy_data_overflow :
    (b : ℕ) (bytes rest buffer : Bytes) (at check_sum : ℕ)
    → All IsByte (b ∷ bytes)
    → length buffer < at + length (b ∷ bytes)
    → copy_data (length (b ∷ bytes)) (record {
      ptr = hex_bytes (b ∷ bytes) ++ rest;
      buffer = buffer;
      bin_length = at;
      check_sum = check_sum;
    })
      ≡ fault over_write
unfolding copy_data
copy_data_overflow b [] rest buffer at check_sum h high =
    let full : ltb at (length buffer) ≡ false = ground arith in
    rw (get_byte-pair b rest h.0, full) refl
copy_data_overflow b (c ∷ bytes) rest buffer at check_sum h high =
    let size = length-set buffer at b in
    elim (Bool-cases (ltb at (length buffer))) [
      | inl room ↦
          rw (get_byte-pair b (hex_bytes (c ∷ bytes) ++ rest) h.0, room)
            (copy_data_overflow c bytes rest (set buffer at b) (at + 1) (check_sum + b) h.1
              (omega (arith, size)))
      | inr full ↦ rw (get_byte-pair b (hex_bytes (c ∷ bytes) ++ rest) h.0, full) refl
    ]

data_record_overflow :
    (address check_sum : ℕ) (bytes rest : Bytes) (image : Image)
    → 0 < length bytes
    → All IsByte bytes
    → length image.buffer < address + length bytes
    → data_record (length bytes) address check_sum (hex_bytes bytes ++ rest) image
      ≡ fault over_write
unfolding data_record
data_record_overflow address check_sum [] rest image some_bytes h high = absurd (omega arith)
data_record_overflow address check_sum (b ∷ bytes) rest image some_bytes h high =
    rw (copy_data_overflow b bytes rest image.buffer address check_sum h high) refl

-- A record that ends behind the binary, whose buffer has the size of the hex file, is written out
-- of bounds: nothing compares Address and ByteCount with BufferSize.
pub process_line_overflow :
    (r : DataRecord) (image : Image) (rest : Bytes)
    → 0 < length r.bytes
    → length r.bytes < 256
    → r.address < 2 ^ 16
    → All IsByte r.bytes
    → length image.buffer < r.address + length r.bytes
    → process_line (encode r ++ rest) image ≡ fault over_write
process_line_overflow r image rest some_bytes short near bytes high =
    rw
      (
        process_line-fields r image rest some_bytes short near,
        data_record_overflow r.address (sum (header r)) r.bytes
            (hex_bytes (checksum r ∷ []) ++ rest) image some_bytes bytes high,
      )
      refl
