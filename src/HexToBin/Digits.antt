-- ===== src/HexToBin/Digits.antt =====
-- IntelHexCharToHex, IntelHexGetByte and IntelHexGetWord of Application/HexToBin/HexToBin.c. A
-- pointer is the bytes from where it points to the end of its buffer; `none` is a read past that.
pub mod Pairs
use uefi_toolkit_pkg.Base.{
  ℕ, ◌+◌, ◌-◌, ◌*◌, ◌^◌, bit_and, bit_or, ◌&&◌, Option, none, some, [], ◌∷◌, Bytes, leb, drop,
  if◌then◌else◌,
}

-- An invalid character counts as 0.
unfoldable pub char_to_hex : ℕ → ℕ
char_to_hex c =
    if leb b'0' c && leb c b'9'
    then c - b'0'
    else if leb b'a' c && leb c b'f'
    then c - b'a' + 10
    else if leb b'A' c && leb c b'F'
    then c - b'A' + 10
    else 0

unfoldable pub get_byte : Bytes → Option ℕ
get_byte [] = none
get_byte (hi ∷ []) = none
get_byte (hi ∷ lo ∷ rest) = some (bit_and (bit_or (char_to_hex hi * 2 ^ 4) (char_to_hex lo)) 0xff)

abbrev pair : Option ℕ → Option ℕ → Option ℕ
pair none lo = none
pair (some hi) none = none
pair (some hi) (some lo) = some (bit_and (bit_or (hi * 2 ^ 8) lo) 0xffff)

unfoldable pub get_word : Bytes → Option ℕ
get_word ptr = pair (get_byte ptr) (get_byte (drop 2 ptr))
