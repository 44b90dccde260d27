-- ===== src/HexToBin/Record.antt =====
-- One line of ProcessIntelHexFile in Application/HexToBin/HexToBin.c: the body of its loop from
-- the start code to `LineNumber++`.
pub mod Encoded
pub mod Overflow
use uefi_toolkit_pkg.Base.{
  ℕ, zero, suc, ◌+◌, ◌^◌, ◌%◌, bit_and, Bool, true, false, ◌||◌, List, [], ◌∷◌, ◌++◌, Option, none,
  some, Bytes, length, drop, set, ltb, leb, ◌==◌, if◌then◌else◌,
}
use uefi_toolkit_pkg.HexToBin.Digits.{get_byte, get_word}

-- Undefined behaviour: a read behind the line buffer, a write outside the binary, FreePool of
-- what is no allocation, a BinLength that was never set.
pub data Fault : Type 0 where
  over_read over_write bad_free uninitialised : Fault

pub data Result {ℓ} (A : Type ℓ) : Type ℓ where
  ok : A → Result A
  unsupported_record : ℕ → Result A
  no_memory : Result A
  fault : Fault → Result A

infixl 5 ◌>>=◌
abbrev pub ◌>>=◌ {ℓ κ} : {A : Type ℓ} {B : Type κ} → Result A → (A → Result B) → Result B
ok a >>= f = f a
unsupported_record t >>= f = unsupported_record t
no_memory >>= f = no_memory
fault e >>= f = fault e

abbrev pub readable {ℓ} : {A : Type ℓ} → Option A → Result A
readable none = fault over_read
readable (some a) = ok a

-- The binary, BinLength (`none` while it is uninitialised), LineNumber, and the line numbers of
-- the checksum errors printed, newest first.
pub record Image : Type 0 where
  pub buffer : Bytes
  pub bin_length : Option ℕ
  pub line_number : ℕ
  pub reports : List ℕ

-- PtrLine, the binary, BinLength and CheckSum in the data loop.
pub record Cursor : Type 0 where
  pub ptr : Bytes
  pub buffer : Bytes
  pub bin_length : ℕ
  pub check_sum : ℕ

-- `for (Index = 0; Index < ByteCount; Index++)`, with the rounds left.
unfoldable pub copy_data : ℕ → Cursor → Result Cursor
copy_data zero c = ok c
copy_data (suc n) c = do
  byte ← readable (get_byte c.ptr)
  if ltb c.bin_length (length c.buffer)
      then copy_data n (record {
        ptr = drop 2 c.ptr;
        buffer = set c.buffer c.bin_length byte;
        bin_length = c.bin_length + 1;
        check_sum = c.check_sum + byte;
      })
      else fault over_write

-- `case RECORD_DATA`; `ptr` points to the data.
unfoldable pub data_record : ℕ → ℕ → ℕ → Bytes → Image → Result Image
data_record byte_count address check_sum ptr image = do
  c ←
      copy_data byte_count
        (record { ptr = ptr; buffer = image.buffer; bin_length = address; check_sum = check_sum })
  last ← readable (get_byte c.ptr)
  ok (record {
    buffer = c.buffer;
    bin_length = some c.bin_length;
    line_number = image.line_number + 1;
    reports =
        if bit_and (c.check_sum + last) 0xff == 0
        then image.reports
        else image.line_number ∷ image.reports;
  })

abbrev pub end_of_file : ℕ
end_of_file = 1

abbrev pub start_linear_address : ℕ
start_linear_address = 5

-- The switch on RecordType: data, the known types that are passed over, and the others.
unfoldable pub by_type : ℕ → ℕ → ℕ → ℕ → Bytes → Image → Result Image
by_type record_type byte_count address check_sum ptr image =
    if record_type == 0
    then data_record byte_count address check_sum ptr image
    else if leb record_type start_linear_address
    then ok (record image { line_number = image.line_number + 1 })
    else unsupported_record record_type

-- A whole line; `none` is the `break` at a ByteCount of 0. The start code is not enforced.
unfoldable pub process_line : Bytes → Image → Result (Option Image)
process_line line image = do
  byte_count ← readable (get_byte (drop 1 line))
  if byte_count == 0 then ok none else do
    address ← readable (get_word (drop 3 line))
    high ← readable (get_byte (drop 3 line))
    low ← readable (get_byte (drop 5 line))
    record_type ← readable (get_byte (drop 7 line))
    image' ←
        by_type record_type byte_count address (byte_count + high + low + record_type) (drop 9 line)
          image
    ok (some image')
