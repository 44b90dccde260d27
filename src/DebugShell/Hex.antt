-- ===== src/DebugShell/Hex.antt =====
-- ShellPrintHex64 and ShellParseHex64 of Library/DebugShellLib/DebugShellLib.c.
-- A C string is a list of bytes up to its NUL, or up to the end of the list.
pub mod Print
pub mod Parse
use uefi_toolkit_pkg.Base.{
  ℕ, zero, suc, ◌+◌, ◌-◌, ◌*◌, ◌/◌, ◌%◌, ◌^◌, bit_and, bit_or, Bool, true, false, ◌&&◌, ◌||◌, List,
  [], ◌∷◌, Option, none, some, Bytes, set, ltb, leb, ◌==◌, if◌then◌else◌,
}

-- (Nibble < 10) ? '0' + Nibble : 'A' + Nibble - 10
unfoldable pub hex_char : ℕ → ℕ
hex_char nibble = if ltb nibble 10 then b'0' + nibble else b'A' + nibble - 10

-- `for (i = 15; i >= 0; i--)` with i + 1 rounds left.
unfoldable pub print_nibbles : ℕ → Bytes → ℕ → Bytes
print_nibbles zero buf value = buf
print_nibbles (suc i) buf value =
    print_nibbles i (set buf (2 + i) (hex_char (bit_and value 0xf))) (value / 2 ^ 4)

-- The buffer that ShellPrintHex64 hands to ShellPrint; `buf` is the uninitialised CHAR8 Buf[19].
unfoldable pub print_hex64 : Bytes → ℕ → Bytes
print_hex64 buf value = set (print_nibbles 16 (set (set buf 0 b'0') 1 b'x') value) 18 0

unfoldable pub hex_nibble : ℕ → Option ℕ
hex_nibble c =
    if leb b'0' c && leb c b'9'
    then some (c - b'0')
    else if leb b'a' c && leb c b'f'
    then some (c - b'a' + 10)
    else if leb b'A' c && leb c b'F'
    then some (c - b'A' + 10)
    else none

-- `Result = (Result << 4) | Nibble` in UINT64.
unfoldable pub push_nibble : ℕ → ℕ → ℕ
push_nibble result nibble = bit_or (result * 2 ^ 4 % 2 ^ 64) nibble

unfoldable pub parse_nibbles : Bytes → ℕ → Option ℕ
parse_nibbles [] result = some result
parse_nibbles (c ∷ s) result = elim (c == 0) [
  | true ↦ some result
  | false ↦ elim (hex_nibble c) [
    | none ↦ none
    | some nibble ↦ parse_nibbles s (push_nibble result nibble)
  ]
]

unfoldable pub skip_prefix : Bytes → Bytes
skip_prefix [] = []
skip_prefix (a ∷ []) = a ∷ []
skip_prefix (a ∷ b ∷ s) = if a == b'0' && (b == b'x' || b == b'X') then s else a ∷ b ∷ s

unfoldable pub is_empty : Bytes → Bool
is_empty [] = true
is_empty (c ∷ s) = c == 0

-- `Str` and `Value` are pointers; `none` and `false` stand for NULL.
unfoldable pub parse_hex64 : Option Bytes → Bool → Option ℕ
parse_hex64 none value = none
parse_hex64 (some str) false = none
parse_hex64 (some str) true =
    let s = skip_prefix str in if is_empty s then none else parse_nibbles s 0
