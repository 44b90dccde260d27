-- ===== src/DebugShell/Hex/Print.antt =====
-- ShellPrintHex64 prints "0x" and sixteen digits, and ShellParseHex64 reads them back.
use native.Mathlib.Nat.{pow-suc}
use uefi_toolkit_pkg.Base.{
  ℕ, zero, suc, ◌+◌, ◌*◌, ◌/◌, ◌%◌, ◌^◌, ◌≤◌, ◌<◌, ◌≡◌, ◌≢◌, refl, sym, ap, [], ◌∷◌, ◌++◌,
  append_assoc, some, true, arith, Bytes, All, All-append, Lacks, length, set, take, drop, c_string,
  length-set, length-append, take-set, drop-set, set-append, c_string-append, c_string_self,
  length-drop, bit_and_mask, take-append-drop,
}
use uefi_toolkit_pkg.DebugShell.Hex.{hex_char, print_nibbles, print_hex64, skip_prefix, parse_hex64}
use uefi_toolkit_pkg.DebugShell.Hex.Parse.{
  IsHexDigit, digit_value, hex_value, digits_of, parse_hex64_iff,
}

-- The low `n` hex digits of a number, most significant first.
pub hex_digits : ℕ → ℕ → Bytes
hex_digits zero v = []
hex_digits (suc n) v = hex_digits n (v / 16) ++ hex_char (v % 16) ∷ []

hex_char-digit : (d : ℕ) → d < 16 → IsHexDigit (hex_char d) × (digit_value (hex_char d) ≡ d)
unfolding hex_char
hex_char-digit d h = ground arith

hex_digits-IsHexDigit : (n v : ℕ) → All IsHexDigit (hex_digits n v)
unfolding hex_digits
hex_digits-IsHexDigit zero v = tt
hex_digits-IsHexDigit (suc n) v =
    All-append IsHexDigit (hex_digits n (v / 16)) (hex_char (v % 16) ∷ [])
      (hex_digits-IsHexDigit n (v / 16)) ((hex_char-digit (v % 16) (omega arith)).0, tt)

length-hex_digits : (n v : ℕ) → length (hex_digits n v) ≡ n
unfolding hex_digits
length-hex_digits zero v = refl
length-hex_digits (suc n) v = omega (
  arith,
  length-append (hex_digits n (v / 16)) (hex_char (v % 16) ∷ []),
  length-hex_digits n (v / 16),
)

-- The loop leaves the prefix and what lies behind its digits as they were.
print_nibbles-eq :
    (n : ℕ) (buf : Bytes) (v : ℕ)
    → 2 + n ≤ length buf
    → print_nibbles n buf v ≡ take 2 buf ++ (hex_digits n v ++ drop (2 + n) buf)
unfolding print_nibbles hex_digits
print_nibbles-eq zero buf v h = sym (take-append-drop 2 buf)
print_nibbles-eq (suc n) buf v h =
    let d = hex_char (v % 16) in
    let room = length-set buf (2 + n) d in
    let next : 2 + suc n ≡ suc (2 + n) = omega arith in
    rw (
      bit_and_mask 4 v,
      next,
      print_nibbles-eq n (set buf (2 + n) d) (v / 16) (omega (arith, room)),
      take-set buf 2 (2 + n) d (omega arith),
      drop-set buf (2 + n) d (omega arith),
      append_assoc,
    )

hex_value-concat :
    (r c : ℕ) (s : Bytes) → hex_value r (s ++ c ∷ []) ≡ hex_value r s * 16 + digit_value c
hex_value-concat r c [] = refl
hex_value-concat r c (d ∷ s) = hex_value-concat (r * 16 + digit_value d) c s

hex_value-digits : (n v : ℕ) → v < 16 ^ n → hex_value 0 (hex_digits n v) ≡ v
unfolding hex_digits
hex_value-digits zero v h = omega arith
hex_value-digits (suc n) v h = omega (
  arith,
  hex_value-concat 0 (hex_char (v % 16)) (hex_digits n (v / 16)),
  (hex_char-digit (v % 16) (omega arith)).1,
  pow-suc 16 n,
  hex_value-digits n (v / 16) (omega (arith, pow-suc 16 n)),
)

IsHexDigit-Lacks : (s : Bytes) → All IsHexDigit s → Lacks 0 s
IsHexDigit-Lacks [] h = tt
IsHexDigit-Lacks (c ∷ s) h = ground (arith, IsHexDigit-Lacks s h.1)

-- "0x" and sixteen digits.
abbrev pub hex64_text : ℕ → Bytes
hex64_text v = b'0' ∷ b'x' ∷ hex_digits 16 v

hex64_text-Lacks : (v : ℕ) → Lacks 0 (hex64_text v)
hex64_text-Lacks v =
    (omega arith, (omega arith, IsHexDigit-Lacks (hex_digits 16 v) (hex_digits-IsHexDigit 16 v)))

terminated :
    (n : ℕ) (xs ys : Bytes) → n ≡ length xs → length ys ≡ 1 → set (xs ++ ys) n 0 ≡ xs ++ 0 ∷ []
terminated n xs [] e h = absurd (omega arith)
terminated n xs (y ∷ []) e h = rw e (set-append xs [] y 0)
terminated n xs (y ∷ z ∷ ys) e h = absurd (omega arith)

-- Whatever the stack held, ShellPrintHex64 prints "0x" and the sixteen digits of its argument.
pub print_hex64-eq :
    (buf : Bytes) (v : ℕ) → length buf ≡ 19 → c_string (print_hex64 buf v) ≡ hex64_text v
unfolding print_hex64
print_hex64-eq [] v h = absurd (omega arith)
print_hex64-eq (a ∷ []) v h = absurd (omega arith)
print_hex64-eq (a ∷ b ∷ rest) v h =
    let filled = print_nibbles-eq 16 (b'0' ∷ b'x' ∷ rest) v (omega arith) in
    let size : 16 ≡ length (hex_digits 16 v) = omega (arith, length-hex_digits 16 v) in
    let last : length (drop 16 rest) ≡ 1 = omega (arith, length-drop 16 rest) in
    rw (filled, terminated 16 (hex_digits 16 v) (drop 16 rest) size last)
      (c_string-append (hex64_text v) [] (hex64_text-Lacks v))

digits_of-hex64_text : (v : ℕ) → digits_of (hex64_text v) ≡ hex_digits 16 v
unfolding skip_prefix
digits_of-hex64_text v = c_string_self (hex_digits 16 v) (hex64_text-Lacks v).1.1

hex_digits-ne-nil : (v : ℕ) → hex_digits 16 v ≢ []
hex_digits-ne-nil v e = absurd (omega (arith, ap length e, length-hex_digits 16 v))

-- ShellParseHex64 reads back every UINT64 that ShellPrintHex64 has printed.
pub parse_hex64-print_hex64 :
    (buf : Bytes) (v : ℕ)
    → length buf ≡ 19
    → v < 2 ^ 64
    → parse_hex64 (some (c_string (print_hex64 buf v))) true ≡ some v
parse_hex64-print_hex64 buf v h fits = rw (print_hex64-eq buf v h) (
    (parse_hex64_iff (hex64_text v) v).1 (
      rw (digits_of-hex64_text v) (
        hex_digits-ne-nil v,
        hex_digits-IsHexDigit 16 v,
        omega (arith, hex_value-digits 16 v (omega arith)),
      )))
