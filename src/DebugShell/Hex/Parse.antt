-- ===== src/DebugShell/Hex/Parse.antt =====
-- Which texts ShellParseHex64 accepts, and the number that it returns.
use mathlib.Core.List.{foldl}
use uefi_toolkit_pkg.Base.{
  ℕ, ◌+◌, ◌-◌, ◌*◌, ◌%◌, ◌^◌, ◌≤◌, ◌<◌, ◌≡◌, ◌≢◌, ◌⊎◌, inl, inr, refl, ◌∙◌, true, false, [], ◌∷◌,
  some, arith, Bytes, All, leb, ◌==◌, if◌then◌else◌, Bool-cases, Option-cases, c_string,
  bit_or_fields, bit_or, ap, ◌↔◌,
}
use uefi_toolkit_pkg.DebugShell.Hex.{
  hex_nibble, push_nibble, parse_nibbles, skip_prefix, is_empty, parse_hex64,
}

abbrev pub IsHexDigit : ℕ → Type 0
IsHexDigit c = ((b'0' ≤ c) × (c ≤ b'9')) ⊎ ((b'a' ≤ c) × (c ≤ b'f')) ⊎ ((b'A' ≤ c) × (c ≤ b'F'))

abbrev pub digit_value : ℕ → ℕ
digit_value c = if leb c b'9' then c - b'0' else if leb c b'F' then c - 55 else c - 87

-- The number that hexadecimal digits spell behind `n`, with no bound.
abbrev pub hex_value : ℕ → Bytes → ℕ
hex_value = foldl (λ n c. n * 16 + digit_value c)

pub hex_nibble-digit : (c : ℕ) → IsHexDigit c → hex_nibble c ≡ some (digit_value c)
unfolding hex_nibble
hex_nibble-digit c h = ground arith

pub hex_nibble-some : (c n : ℕ) → hex_nibble c ≡ some n → IsHexDigit c × (n < 16)
unfolding hex_nibble
hex_nibble-some c n h = ground arith

pub push_nibble-eq : (r n : ℕ) → n < 16 → push_nibble r n ≡ (r * 16 + n) % 2 ^ 64
unfolding push_nibble
push_nibble-eq r n h = omega (arith, bit_or_fields 4 (r % 2 ^ 60) n h, shifted)
  where
    shifted : bit_or (r * 2 ^ 4 % 2 ^ 64) n ≡ bit_or (r % 2 ^ 60 * 2 ^ 4) n
    shifted = ap (λ t. bit_or t n) (omega arith)

-- A string of hex digits spells its number modulo 2^64.
pub parse_nibbles-digits :
    (s : Bytes) (r : ℕ)
    → All IsHexDigit s
    → parse_nibbles s (r % 2 ^ 64) ≡ some (hex_value r s % 2 ^ 64)
unfolding parse_nibbles
parse_nibbles-digits [] r h = refl
parse_nibbles-digits (c ∷ s) r h =
    let n = r * 16 + digit_value c in
    let digit : hex_nibble c ≡ some (digit_value c) = hex_nibble-digit c h.0 in
    let small : digit_value c < 16 = (hex_nibble-some c (digit_value c) digit).1 in
    let step : push_nibble (r % 2 ^ 64) (digit_value c) ≡ n % 2 ^ 64 =
      omega (arith, push_nibble-eq (r % 2 ^ 64) (digit_value c) small) in
    ground (arith, digit, step, parse_nibbles-digits s n h.1)

parse_nibbles-c_string : (s : Bytes) (r : ℕ) → parse_nibbles s r ≡ parse_nibbles (c_string s) r
unfolding parse_nibbles c_string
parse_nibbles-c_string [] r = refl
parse_nibbles-c_string (c ∷ s) r = elim (Option-cases (hex_nibble c)) [
  | inl bad ↦ ground arith
  | inr (n, good) ↦ ground (arith, parse_nibbles-c_string s (push_nibble r n))
]

-- On a text of hex digits the loop, from 0, returns their value.
parse_nibbles-value :
    (s : Bytes)
    → All IsHexDigit (c_string s)
    → parse_nibbles s 0 ≡ some (hex_value 0 (c_string s) % 2 ^ 64)
parse_nibbles-value s h = parse_nibbles-c_string s 0 ∙ parse_nibbles-digits (c_string s) 0 h

parse_nibbles-IsHexDigit :
    (s : Bytes) (r v : ℕ) → parse_nibbles s r ≡ some v → All IsHexDigit (c_string s)
unfolding parse_nibbles c_string
parse_nibbles-IsHexDigit [] r v h = tt
parse_nibbles-IsHexDigit (c ∷ s) r v h = elim (Bool-cases (c == 0)) [
  | inl stop ↦ rw stop tt
  | inr more ↦ elim (Option-cases (hex_nibble c)) [
    | inl bad ↦ cc
    | inr (n, good) ↦
        ground (arith, hex_nibble-some c n good, parse_nibbles-IsHexDigit s (push_nibble r n) v)
  ]
]

is_empty-c_string : (s : Bytes) → (is_empty s ≡ false) ↔ (c_string s ≢ [])
unfolding is_empty c_string
is_empty-c_string [] = (λ h. cc, λ h. absurd (h refl))
is_empty-c_string (c ∷ s) = ground arith

-- The digits of a text: what follows an optional 0x or 0X, up to the NUL.
abbrev pub digits_of : Bytes → Bytes
digits_of s = c_string (skip_prefix s)

-- ShellParseHex64 succeeds exactly on one or more hex digits behind an optional prefix, and then
-- returns the number they spell modulo 2^64: more than sixteen digits wrap silently.
pub parse_hex64_iff :
    (s : Bytes) (v : ℕ)
    → (parse_hex64 (some s) true ≡ some v) ↔ (
        (digits_of s ≢ [])
        × All IsHexDigit (digits_of s)
        × (v ≡ hex_value 0 (digits_of s) % 2 ^ 64))
unfolding parse_hex64
parse_hex64_iff s v = (
  λ h. elim (Bool-cases (is_empty (skip_prefix s))) [
    | inl none_left ↦ cc
    | inr some_left ↦
        let parsed : parse_nibbles (skip_prefix s) 0 ≡ some v = rw some_left at h in
        let all_hex = parse_nibbles-IsHexDigit (skip_prefix s) 0 v parsed in
        (
          (is_empty-c_string (skip_prefix s)).0 some_left,
          all_hex,
          cc (parsed, parse_nibbles-value (skip_prefix s) all_hex),
        )
  ],
  λ (nonempty, all_hex, exact).
      rw ((is_empty-c_string (skip_prefix s)).1 nonempty, exact)
        (parse_nibbles-value (skip_prefix s) all_hex),
)
