-- ===== src/UefiConsole/Numbers/Loops.antt =====
-- The loops of the number conversion in ConsoleParameters.c, on texts of digits.
use mathlib.Core.List.{foldl}
use uefi_toolkit_pkg.Base.{
  ℕ, ◌+◌, ◌-◌, ◌*◌, ◌/◌, ◌%◌, ◌^◌, ◌≤◌, ◌<◌, ◌≡◌, refl, Bool, true, false, ◌&&◌, List, [], ◌∷◌, All,
  ltb, leb, ◌==◌, if◌then◌else◌, Bool-cases, inl, inr, Status, success, error, device_error, arith,
}
use uefi_toolkit_pkg.DebugShell.Hex.Parse.{IsHexDigit, digit_value, hex_value}
use uefi_toolkit_pkg.UefiConsole.Numbers.{
  is_decimal_digit, is_hexa_decimal_digit, hex_char_to_uintn, head_char, skip_pad, skip_zeros,
  skip_spaces, Stored, stores, indeterminate, on_digit, hex_loop, decimal_loop, number_loop,
}

abbrev pub IsDigit : ℕ → Type 0
IsDigit c = (48 ≤ c) × (c ≤ 57)

-- The number that decimal digits spell behind `n`, with no bound.
abbrev pub decimal_value : ℕ → List ℕ → ℕ
decimal_value = foldl (λ n c. n * 10 + (c - 48))

-- What becomes of a number: stored if it has 64 bits, else an error and nothing set.
unfoldable pub verdict : ℕ → Status × Stored
verdict v = if ltb v (2 ^ 64) then (success, stores v) else (error device_error, indeterminate)

pub All-IsHexDigit : (s : List ℕ) → All IsDigit s → All IsHexDigit s
All-IsHexDigit [] h = tt
All-IsHexDigit (c ∷ s) h = (inl h.0, All-IsHexDigit s h.1)

pub hex_digit :
    (c : ℕ)
    → IsHexDigit c
    → (is_hexa_decimal_digit c ≡ true)
      × (hex_char_to_uintn c ≡ digit_value c)
      × (digit_value c < 16)
unfolding is_hexa_decimal_digit hex_char_to_uintn
hex_digit c h = ground arith

pub no_space : (s : List ℕ) → All IsHexDigit s → (head_char s == 32) ≡ false
no_space [] h = refl
no_space (c ∷ s) h = let d = h.0 in ground (arith, d)

hex_value_grows : (s : List ℕ) (r : ℕ) → r ≤ hex_value r s
hex_value_grows [] r = omega arith
hex_value_grows (c ∷ s) r = omega (arith, hex_value_grows s (r * 16 + digit_value c))

decimal_value_grows : (s : List ℕ) (r : ℕ) → r ≤ decimal_value r s
decimal_value_grows [] r = omega arith
decimal_value_grows (c ∷ s) r = omega (arith, decimal_value_grows s (r * 10 + (c - 48)))

verdict_small : (v : ℕ) → v < 2 ^ 64 → (success, stores v) ≡ verdict v
unfolding verdict
verdict_small v h = ground arith

verdict_large : (v : ℕ) → 2 ^ 64 ≤ v → verdict v ≡ (error device_error, indeterminate)
unfolding verdict
verdict_large v h = ground arith

-- One round of either loop, on the number `n` that it comes to.
on_digit-fits :
    (next : ℕ → Bool → Status × Stored) (stop : Bool) (base digit r after : ℕ)
    → leb r ((2 ^ 64 - 1 - digit) / base) ≡ true
    → (after == 32) ≡ false
    → r * base + digit < 2 ^ 64
    → on_digit next stop base digit r after ≡ next (r * base + digit) false
on_digit-fits next stop base digit r after fits other small =
    let wrap : (r * base + digit) % 2 ^ 64 ≡ r * base + digit = omega (arith, small) in
    let goes_on : (stop && (after == 32)) ≡ false = ground (arith, other) in
    rw (fits, wrap, goes_on) refl

pub hex_loop-digits :
    (stop : Bool) (s : List ℕ) (r : ℕ)
    → All IsHexDigit s
    → r < 2 ^ 64
    → hex_loop stop s r false ≡ verdict (hex_value r s)
unfolding hex_loop
hex_loop-digits stop [] r h small = verdict_small r small
hex_loop-digits stop (c ∷ s) r h small =
    let (digit, value, low) = hex_digit c h.0 in
    let d = digit_value c in
    let behind = no_space s h.1 in
    elim (Bool-cases (leb r ((2 ^ 64 - 1 - d) / 16))) [
      | inl fits ↦
          let room : r * 16 + d < 2 ^ 64 = ground (arith, fits, low) in
          let round = on_digit-fits (hex_loop stop s) stop 16 d r (head_char s) fits behind room in
          rw (digit, value, round) (hex_loop-digits stop s (r * 16 + d) h.1 room)
      | inr over ↦
          let large : 2 ^ 64 ≤ r * 16 + d = ground (arith, over, low) in
          let all : 2 ^ 64 ≤ hex_value (r * 16 + d) s =
            omega (arith, large, hex_value_grows s (r * 16 + d)) in
          rw (digit, value, over, verdict_large (hex_value (r * 16 + d) s) all) refl
    ]

decimal_digit : (c : ℕ) → IsDigit c → (is_decimal_digit c ≡ true) × (c - 48 < 10)
unfolding is_decimal_digit
decimal_digit c h = ground arith

pub decimal_loop-digits :
    (stop : Bool) (s : List ℕ) (r : ℕ)
    → All IsDigit s
    → r < 2 ^ 64
    → decimal_loop stop s r false ≡ verdict (decimal_value r s)
unfolding decimal_loop
decimal_loop-digits stop [] r h small = verdict_small r small
decimal_loop-digits stop (c ∷ s) r h small =
    let (digit, low) = decimal_digit c h.0 in
    let d = c - 48 in
    let behind = no_space s (All-IsHexDigit s h.1) in
    elim (Bool-cases (leb r ((2 ^ 64 - 1 - d) / 10))) [
      | inl fits ↦
          let room : r * 10 + d < 2 ^ 64 = ground (arith, fits, low) in
          let round =
            on_digit-fits (decimal_loop stop s) stop 10 d r (head_char s) fits behind room in
          rw (digit, round) (decimal_loop-digits stop s (r * 10 + d) h.1 room)
      | inr over ↦
          let large : 2 ^ 64 ≤ r * 10 + d = ground (arith, over, low) in
          let all : 2 ^ 64 ≤ decimal_value (r * 10 + d) s =
            omega (arith, large, decimal_value_grows s (r * 10 + d)) in
          rw (digit, over, verdict_large (decimal_value (r * 10 + d) s) all) refl
    ]

-- Leading zeros do not change what the digits spell.
pub skip_zeros-hex :
    (s : List ℕ)
    → All IsHexDigit s
    → All IsHexDigit (skip_zeros s) × (hex_value 0 (skip_zeros s) ≡ hex_value 0 s)
unfolding skip_zeros
skip_zeros-hex [] h = (tt, refl)
skip_zeros-hex (c ∷ s) h = elim (Bool-cases (c == 48)) [
  | inl zero_digit ↦
      let same : c ≡ 48 = ground (arith, zero_digit) in
      let next = skip_zeros-hex s h.1 in rw (zero_digit, same) next
  | inr other ↦ rw other (h, refl)
]

pub skip_zeros-decimal :
    (s : List ℕ)
    → All IsDigit s
    → All IsDigit (skip_zeros s) × (decimal_value 0 (skip_zeros s) ≡ decimal_value 0 s)
unfolding skip_zeros
skip_zeros-decimal [] h = (tt, refl)
skip_zeros-decimal (c ∷ s) h = elim (Bool-cases (c == 48)) [
  | inl zero_digit ↦
      let same : c ≡ 48 = ground (arith, zero_digit) in
      let next = skip_zeros-decimal s h.1 in rw (zero_digit, same) next
  | inr other ↦ rw other (h, refl)
]

pub skip_pad-digit : (c : ℕ) (s : List ℕ) → 32 < c → skip_pad (c ∷ s) ≡ c ∷ s
unfolding skip_pad
skip_pad-digit c s h = ground arith

pub skip_spaces-digit : (c : ℕ) (s : List ℕ) → 32 < c → skip_spaces (c ∷ s) ≡ c ∷ s
unfolding skip_spaces
skip_spaces-digit c s h = ground arith

pub number_loop-hex :
    (stop : Bool) (s : List ℕ) → All IsHexDigit s → number_loop true stop false s ≡ true
unfolding number_loop
number_loop-hex stop [] h = refl
number_loop-hex stop (c ∷ s) h =
    let d = (hex_digit c h.0).0 in let next = number_loop-hex stop s h.1 in ground (arith, d, next)

pub number_loop-decimal :
    (hex stop : Bool) (s : List ℕ) → All IsDigit s → number_loop hex stop false s ≡ true
unfolding number_loop
number_loop-decimal hex stop [] h = refl
number_loop-decimal hex stop (c ∷ s) h =
    let d = (decimal_digit c h.0).0 in
    let e = (hex_digit c (inl h.0)).0 in
    let next = number_loop-decimal hex stop s h.1 in ground (arith, d, e, next)
