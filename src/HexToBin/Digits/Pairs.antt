-- ===== src/HexToBin/Digits/Pairs.antt =====
-- Bytes as pairs of hex digits, and how IntelHexGetByte and IntelHexGetWord read them.
use uefi_toolkit_pkg.Base.{
  ℕ, ◌+◌, ◌*◌, ◌/◌, ◌%◌, ◌^◌, ◌<◌, ◌≡◌, ◌≢◌, refl, ap, [], ◌∷◌, ◌++◌, some, arith, Bytes, All,
  length, ltb, if◌then◌else◌, bit_or_fields, bit_and_mask,
}
use uefi_toolkit_pkg.HexToBin.Digits.{char_to_hex, get_byte, get_word}

abbrev pub IsByte : ℕ → Type 0
IsByte b = b < 256

abbrev pub digit_char : ℕ → ℕ
digit_char d = if ltb d 10 then b'0' + d else 55 + d

-- Two upper-case hex digits for each byte.
abbrev pub hex_bytes : Bytes → Bytes
hex_bytes [] = []
hex_bytes (b ∷ bs) = digit_char (b / 16) ∷ digit_char (b % 16) ∷ hex_bytes bs

pub length-hex_bytes : (bs : Bytes) → length (hex_bytes bs) ≡ 2 * length bs
length-hex_bytes [] = omega arith
length-hex_bytes (b ∷ bs) = omega (arith, length-hex_bytes bs)

pub hex_bytes-append : (xs bs : Bytes) → hex_bytes (xs ++ bs) ≡ hex_bytes xs ++ hex_bytes bs
hex_bytes-append [] bs = refl
hex_bytes-append (x ∷ xs) bs = rw (hex_bytes-append xs bs) refl

char_to_hex-digit : (d : ℕ) → d < 16 → char_to_hex (digit_char d) ≡ d
unfolding char_to_hex
char_to_hex-digit d h = ground arith

pub get_byte-pair :
    (b : ℕ) (rest : Bytes)
    → IsByte b
    → get_byte (digit_char (b / 16) ∷ digit_char (b % 16) ∷ rest) ≡ some b
unfolding get_byte
get_byte-pair b rest h =
    rw
      (
        char_to_hex-digit (b / 16) (omega arith),
        char_to_hex-digit (b % 16) (omega arith),
        bit_or_fields 4 (b / 16) (b % 16) (omega arith),
        bit_and_mask 8 (b / 16 * 2 ^ 4 + b % 16),
      )
      (ap some (omega arith))

pub get_word-pairs :
    (hi lo : ℕ) (rest : Bytes)
    → IsByte hi
    → IsByte lo
    → get_word (hex_bytes (hi ∷ lo ∷ []) ++ rest) ≡ some (hi * 256 + lo)
unfolding get_word
get_word-pairs hi lo rest h l =
    rw
      (
        get_byte-pair hi (hex_bytes (lo ∷ []) ++ rest) h,
        get_byte-pair lo rest l,
        bit_or_fields 8 hi lo l,
        bit_and_mask 16 (hi * 2 ^ 8 + lo),
      )
      (ap some (omega arith))

hex_bytes-IsPlain_digit : (d : ℕ) → d < 16 → (digit_char d ≢ 0x0d) × (digit_char d ≢ 0x0a)
hex_bytes-IsPlain_digit d h = ground arith

abbrev pub NotBreak : ℕ → Type 0
NotBreak c = (c ≢ 0x0d) × (c ≢ 0x0a)

-- Hex text holds no line break.
pub hex_bytes-NotBreak : (bs : Bytes) → All IsByte bs → All NotBreak (hex_bytes bs)
hex_bytes-NotBreak [] h = tt
hex_bytes-NotBreak (b ∷ bs) h = (
  hex_bytes-IsPlain_digit (b / 16) (omega (arith, h.0)),
  (hex_bytes-IsPlain_digit (b % 16) (omega arith), hex_bytes-NotBreak bs h.1),
)
