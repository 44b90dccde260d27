-- ===== src/UefiConsole/Numbers/Spelling.antt =====
-- The texts that spell numbers, and how ConsoleParameters.c tests and reads them.
use uefi_toolkit_pkg.Base.{
  ℕ, ◌<◌, ◌≡◌, ◌≢◌, ◌∙◌, refl, Bool, true, false, List, [], ◌∷◌, some, All, ◌==◌, ◌||◌, ◌&&◌,
  if◌then◌else◌, arith, ap,
}
use uefi_toolkit_pkg.DebugShell.Hex.Parse.{IsHexDigit, hex_value}
use uefi_toolkit_pkg.UefiConsole.Numbers.{
  head_char, char_to_upper, skip_zeros, skip_spaces, hex_digits, zero_before, str_hex_to_uint64,
  str_decimal_to_uint64, unsigned_number, has_prefix, internal_is_hex_or_decimal_number,
}
use uefi_toolkit_pkg.UefiConsole.Numbers.Loops.{
  IsDigit, decimal_value, verdict, no_space, All-IsHexDigit, hex_loop-digits, decimal_loop-digits,
  skip_zeros-hex, skip_zeros-decimal, skip_pad-digit, skip_spaces-digit, number_loop-hex,
  number_loop-decimal,
}

-- A text spells a number: with the prefix, in hexadecimal digits if these are forced, else in
-- decimal ones.
pub data Spelled : Bool → List ℕ → ℕ → Type 0 where
  prefixed :
      (force : Bool) (x : ℕ) (s : List ℕ)
      → (x == 120 || x == 88) ≡ true
      → All IsHexDigit s
      → Spelled force (48 ∷ x ∷ s) (hex_value 0 s)
  hexadecimal :
      (c : ℕ) (s : List ℕ) → All IsHexDigit (c ∷ s) → Spelled true (c ∷ s) (hex_value 0 (c ∷ s))
  decimal :
      (c : ℕ) (s : List ℕ) → All IsDigit (c ∷ s) → Spelled false (c ∷ s) (decimal_value 0 (c ∷ s))

no_x : (s : List ℕ) → All IsHexDigit s → (head_char s == 120 || head_char s == 88) ≡ false
no_x [] h = refl
no_x (c ∷ s) h = let d = h.0 in ground (arith, d)

no_upper_x : (s : List ℕ) → All IsHexDigit s → (char_to_upper (head_char s) == 88) ≡ false
unfolding char_to_upper
no_upper_x [] h = refl
no_upper_x (c ∷ s) h = let d = h.0 in ground (arith, d)

hex_digits-value :
    (stop : Bool) (s : List ℕ) → All IsHexDigit s → hex_digits stop s ≡ verdict (hex_value 0 s)
unfolding hex_digits
hex_digits-value stop s h =
    let behind = no_space s h in
    let loop = hex_loop-digits stop s 0 h (omega arith) in rw behind loop

skip_zeros-prefix :
    (x : ℕ) (s : List ℕ) → (x == 120 || x == 88) ≡ true → skip_zeros (48 ∷ x ∷ s) ≡ x ∷ s
unfolding skip_zeros
skip_zeros-prefix x s is_x = ground (arith, is_x)

upper-x : (x : ℕ) → (x == 120 || x == 88) ≡ true → (char_to_upper x == 88) ≡ true
unfolding char_to_upper
upper-x x is_x = ground (arith, is_x)

-- The number test and the conversion, on each spelling.
module _ (before : ℕ) (stop : Bool) where
  str_hex-prefixed :
      (x : ℕ) (s : List ℕ)
      → (x == 120 || x == 88) ≡ true
      → All IsHexDigit s
      → str_hex_to_uint64 before stop (48 ∷ x ∷ s) ≡ verdict (hex_value 0 s)
  unfolding str_hex_to_uint64 zero_before
  str_hex-prefixed x s is_x h =
      let zeros = skip_zeros-prefix x s is_x in
      let upper = upper-x x is_x in rw (zeros, upper) (hex_digits-value stop s h)

  str_hex-digits :
      (c : ℕ) (s : List ℕ)
      → All IsHexDigit (c ∷ s)
      → str_hex_to_uint64 before stop (c ∷ s) ≡ verdict (hex_value 0 (c ∷ s))
  unfolding str_hex_to_uint64
  str_hex-digits c s h =
      let d = h.0 in
      let high : 32 < c = ground (arith, d) in
      let pad = skip_pad-digit c s high in
      let behind = skip_zeros-hex (c ∷ s) h in
      let upper = no_upper_x (skip_zeros (c ∷ s)) behind.0 in
      let value = hex_digits-value stop (skip_zeros (c ∷ s)) behind.0 in
      rw (pad, upper) (value ∙ ap verdict behind.1)

  str_decimal-digits :
      (c : ℕ) (s : List ℕ)
      → All IsDigit (c ∷ s)
      → str_decimal_to_uint64 stop (c ∷ s) ≡ verdict (decimal_value 0 (c ∷ s))
  unfolding str_decimal_to_uint64
  str_decimal-digits c s h =
      let d = h.0 in
      let high : 32 < c = ground (arith, d) in
      let pad = skip_pad-digit c s high in
      let behind = skip_zeros-decimal (c ∷ s) h in
      let after = no_space (skip_zeros (c ∷ s)) (All-IsHexDigit (skip_zeros (c ∷ s)) behind.0) in
      let never : (stop && (head_char (skip_zeros (c ∷ s)) == 32)) ≡ false =
        ground (arith, after) in
      let value = decimal_loop-digits stop (skip_zeros (c ∷ s)) 0 behind.0 (omega arith) in
      rw (pad, never) (value ∙ ap verdict behind.1)

  pub unsigned-Spelled :
      (force : Bool) (t : List ℕ) (v : ℕ)
      → Spelled force t v
      → unsigned_number force stop false t ≡ true
  unfolding unsigned_number
  unsigned-Spelled force t v (prefixed _ x s is_x h) =
      let zeros = skip_zeros-prefix x s is_x in rw (zeros, is_x) (number_loop-hex stop s h)
  unsigned-Spelled force t v (hexadecimal c s h) =
      let behind = (skip_zeros-hex (c ∷ s) h).0 in
      rw (no_x (skip_zeros (c ∷ s)) behind) (number_loop-hex stop (skip_zeros (c ∷ s)) behind)
  unsigned-Spelled force t v (decimal c s h) =
      let behind = (skip_zeros-decimal (c ∷ s) h).0 in
      rw (no_x (skip_zeros (c ∷ s)) (All-IsHexDigit (skip_zeros (c ∷ s)) behind))
        (number_loop-decimal false stop (skip_zeros (c ∷ s)) behind)

  signless :
      (force : Bool) (c : ℕ) (s : List ℕ)
      → (c == 45) ≡ false
      → unsigned_number force stop false (c ∷ s) ≡ true
      → internal_is_hex_or_decimal_number force stop false (some (c ∷ s)) ≡ true
  unfolding internal_is_hex_or_decimal_number
  signless force c s plain number = rw (plain, number) refl

  pub number-Spelled :
      (force : Bool) (t : List ℕ) (v : ℕ)
      → Spelled force t v
      → internal_is_hex_or_decimal_number force stop false (some t) ≡ true
  number-Spelled force t v (prefixed _ x s is_x h) =
      signless force 48 (x ∷ s) refl
        (unsigned-Spelled force (48 ∷ x ∷ s) (hex_value 0 s) (prefixed force x s is_x h))
  number-Spelled force t v (hexadecimal c s h) =
      let d = h.0 in
      signless true c s (ground (arith, d))
        (unsigned-Spelled true (c ∷ s) (hex_value 0 (c ∷ s)) (hexadecimal c s h))
  number-Spelled force t v (decimal c s h) =
      let d = h.0 in
      signless false c s (ground (arith, d))
        (unsigned-Spelled false (c ∷ s) (decimal_value 0 (c ∷ s)) (decimal c s h))

  pub conversion :
      (force : Bool) (t : List ℕ) (v : ℕ)
      → Spelled force t v
      → (if force || has_prefix t
          then str_hex_to_uint64 before stop t
          else str_decimal_to_uint64 stop t)
        ≡ verdict v
  unfolding has_prefix
  conversion true t v (prefixed _ x s is_x h) = str_hex-prefixed x s is_x h
  conversion false t v (prefixed _ x s is_x h) = rw is_x (str_hex-prefixed x s is_x h)
  conversion force t v (hexadecimal c s h) = str_hex-digits c s h
  conversion force t v (decimal c s h) =
      let other : (c == 48 && (head_char s == 120 || head_char s == 88)) ≡ false =
        ground (arith, no_x s (All-IsHexDigit s h.1)) in
      rw other (str_decimal-digits c s h)

  pub skip_spaces-Spelled :
      (force : Bool) (t : List ℕ) (v : ℕ) → Spelled force t v → skip_spaces t ≡ t
  skip_spaces-Spelled force t v (prefixed _ x s is_x h) = skip_spaces-digit 48 (x ∷ s) (omega arith)
  skip_spaces-Spelled force t v (hexadecimal c s h) =
      let d = h.0 in skip_spaces-digit c s (ground (arith, d))
  skip_spaces-Spelled force t v (decimal c s h) =
      let d = h.0 in skip_spaces-digit c s (ground (arith, d))

  pub Spelled-some : (force : Bool) (t : List ℕ) (v : ℕ) → Spelled force t v → t ≢ []
  Spelled-some force t v (prefixed _ x s is_x h) = λ e. cc
  Spelled-some force t v (hexadecimal c s h) = λ e. cc
  Spelled-some force t v (decimal c s h) = λ e. cc
