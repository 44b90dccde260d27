-- ===== src/HexToBin/Convert/Encoded.antt =====
-- A well-formed Intel HEX file is converted to the image that its records describe.
use uefi_toolkit_pkg.Base.{
  ℕ, zero, suc, ◌+◌, ◌*◌, ◌<◌, ◌≡◌, refl, sym, Bool, true, List, [], ◌∷◌, ◌++◌, none, some, arith,
  Bytes, All, All-append, length, length-append, length-replicate, codes,
}
use uefi_toolkit_pkg.HexToBin.Digits.Pairs.{
  hex_bytes, length-hex_bytes, get_byte-pair, NotBreak, hex_bytes-NotBreak,
}
use uefi_toolkit_pkg.HexToBin.Line.Bounds.{get_line-crlf, drop_line}
use uefi_toolkit_pkg.HexToBin.Record.{ok, Image, process_line}
use uefi_toolkit_pkg.HexToBin.Record.Encoded.{
  DataRecord, Fits, encode, header, checksum, write_record, process_line-encode, length-overlay,
}
use uefi_toolkit_pkg.HexToBin.Convert.{
  max_line_length, start_image, after_line, on_line, convert_loop, finish, process_intel_hex,
}

abbrev pub end_line : Bytes
end_line = codes ":00000001FF"

-- A file of data records, each on a line of its own, and the end-of-file record.
abbrev pub hex_file : List DataRecord → Bytes
hex_file [] = end_line ++ 0x0d ∷ 0x0a ∷ []
hex_file (r ∷ rs) = encode r ++ 0x0d ∷ 0x0a ∷ hex_file rs

abbrev pub write_records : List DataRecord → Image → Image
write_records [] image = image
write_records (r ∷ rs) image = write_records rs (write_record r image)

encode-NotBreak : (r : DataRecord) (size : ℕ) → Fits size r → All NotBreak (encode r)
encode-NotBreak r size f = (
  omega arith,
  All-append NotBreak (hex_bytes (header r)) (hex_bytes r.bytes ++ hex_bytes (checksum r ∷ []))
      (hex_bytes-NotBreak (header r) (omega (arith, f.short, f.near)))
      (All-append NotBreak (hex_bytes r.bytes) (hex_bytes (checksum r ∷ []))
        (hex_bytes-NotBreak r.bytes f.all_bytes)
        (hex_bytes-NotBreak (checksum r ∷ []) (omega arith))),
)

length-encode : (r : DataRecord) → length (encode r) ≡ 11 + 2 * length r.bytes
length-encode r = omega (
  arith,
  length-append (hex_bytes r.bytes) (hex_bytes (checksum r ∷ [])),
  length-hex_bytes r.bytes,
)

-- The end-of-file record has no data bytes, and ends the loop.
process_line_end : (image : Image) (rest : Bytes) → process_line (end_line ++ rest) image ≡ ok none
unfolding process_line
process_line_end image rest = rw (get_byte-pair 0 (codes "000001FF" ++ rest) (omega arith)) refl

Fits-same : {m n : ℕ} {r : DataRecord} → m ≡ n → Fits m r → Fits n r
Fits-same e f = rw e at f

All-Fits-same : (m n : ℕ) (rs : List DataRecord) → m ≡ n → All (Fits m) rs → All (Fits n) rs
All-Fits-same m n [] e h = tt
All-Fits-same m n (r ∷ rs) e h = (Fits-same e h.0, All-Fits-same m n rs e h.1)

convert_loop-hex_file :
    (fuel : ℕ) (rs : List DataRecord) (line : Bytes) (image : Image)
    → length (hex_file rs) < fuel
    → All (Fits (length image.buffer)) rs
    → convert_loop fuel (hex_file rs) line image ≡ some (ok (write_records rs image))
unfolding convert_loop on_line after_line
convert_loop-hex_file zero rs line image h fits = absurd (omega arith)
convert_loop-hex_file (suc fuel) [] line image h fits =
    let (tail, got) = get_line-crlf end_line [] line max_line_length (omega arith) (omega arith) in
    rw got (rw (process_line_end image tail) refl)
convert_loop-hex_file (suc fuel) (r ∷ rs) line image h fits =
    let image' = write_record r image in
    let (tail, got) =
      get_line-crlf (encode r) (hex_file rs) line max_line_length
        (encode-NotBreak r (length image.buffer) fits.0)
        (omega (arith, length-encode r, (fits.0).short)) in
    let same : length image.buffer ≡ length image'.buffer =
      sym (length-overlay r.bytes image.buffer r.address) in
    rw (got, process_line-encode r image tail fits.0, drop_line (encode r) (hex_file rs))
      (convert_loop-hex_file fuel rs (encode r ++ tail) image'
        (omega (arith, length-append (encode r) (0x0d ∷ 0x0a ∷ hex_file rs)))
        (All-Fits-same _ _ rs same fits.1))

-- The end of the last record.
abbrev pub last_end : DataRecord → List DataRecord → ℕ
last_end r [] = r.address + length r.bytes
last_end r (s ∷ rs) = last_end s rs

bin_length-write_records :
    (r : DataRecord) (rs : List DataRecord) (image : Image)
    → (write_records (r ∷ rs) image).bin_length ≡ some (last_end r rs)
bin_length-write_records r [] image = refl
bin_length-write_records r (s ∷ rs) image = bin_length-write_records s rs (write_record r image)

-- When the pool has room for every allocation: a source of one or more data records, each of 1 to 121
-- bytes that end within the size of the source, written on lines of their own in capital hexadecimal
-- digits with right checksums, and behind them the line :00000001FF, every line ended by CR and LF, is
-- converted: each record's bytes stand at its address, over 0xFF, a later record over an earlier one,
-- and the size is the end of the last record. (It is not the end of the highest one.)
pub process_intel_hex-hex_file :
    (pool : ℕ → Bool) (garbage : Bytes) (r : DataRecord) (rs : List DataRecord)
    → ((n : ℕ) → pool n ≡ true)
    → let source = hex_file (r ∷ rs) in
      All (Fits (length source)) (r ∷ rs)
      → process_intel_hex pool garbage source
        ≡ some (ok (write_records (r ∷ rs) (start_image (length source)), last_end r rs))
unfolding process_intel_hex finish
process_intel_hex-hex_file pool garbage r rs memory fits =
    let source = hex_file (r ∷ rs) in
    let start = start_image (length source) in
    let same : length source ≡ length start.buffer = sym (length-replicate (length source) 0xff) in
    let run =
      convert_loop-hex_file (suc (length source)) (r ∷ rs) garbage start (omega arith)
        (All-Fits-same _ _ (r ∷ rs) same fits) in
    rw (memory max_line_length, memory (length source), run, bin_length-write_records r rs start)
      refl
