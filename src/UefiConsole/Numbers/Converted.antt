-- ===== src/UefiConsole/Numbers/Converted.antt =====
-- What ConsoleConvertStringToUint64 returns for the texts that spell numbers.
use uefi_toolkit_pkg.Base.{
  ℕ, ◌^◌, ◌≡◌, ◌≢◌, refl, Bool, true, false, List, [], ◌∷◌, some, ltb, ◌||◌, if◌then◌else◌,
  Bool-cases, inl, inr, Status, success, error, device_error, arith, ap,
}
use uefi_toolkit_pkg.UefiConsole.Numbers.{
  skip_spaces, Stored, stores, indeterminate, hex_digits, str_hex_to_uint64, str_decimal_to_uint64,
  has_prefix, internal_is_hex_or_decimal_number, store_value, convert_walker,
  convert_string_to_uint64, is_hex_or_decimal_number, is_not_found,
}
use uefi_toolkit_pkg.UefiConsole.Numbers.Loops.{verdict, skip_spaces-digit}
use uefi_toolkit_pkg.UefiConsole.Numbers.Spelling.{
  Spelled, unsigned-Spelled, number-Spelled, conversion, skip_spaces-Spelled, Spelled-some,
}

module _ (before : ℕ) (stop : Bool) where
  walker_converts :
      (to_store force : Bool) (t : List ℕ) (v : ℕ)
      → t ≢ []
      → internal_is_hex_or_decimal_number force stop false (some t) ≡ true
      → (if force || has_prefix t
          then str_hex_to_uint64 before stop t
          else str_decimal_to_uint64 stop t)
        ≡ verdict v
      → convert_walker before to_store force stop t ≡ store_value to_store (verdict v)
  unfolding convert_walker
  walker_converts to_store force [] v some_text number value = absurd (some_text refl)
  walker_converts to_store force (c ∷ s) v some_text number value =
      rw number (ap (store_value to_store) value)

  string_converts :
      (to_store force : Bool) (t : List ℕ) (r : Status × Stored)
      → internal_is_hex_or_decimal_number force stop false (some t) ≡ true
      → skip_spaces t ≡ t
      → convert_walker before to_store force stop t ≡ r
      → convert_string_to_uint64 before to_store force stop (some t) ≡ r
  unfolding convert_string_to_uint64
  string_converts to_store force t r number spaces value = rw (number, spaces) value

  -- Of a text that spells a number, behind 0x or in digits of the base that is asked for,
  -- ConsoleConvertStringToUint64 returns success and the number if it has 64 bits, and else
  -- EFI_DEVICE_ERROR, with what was never set in *Value.
  pub convert_string_to_uint64-Spelled :
      (force : Bool) (t : List ℕ) (v : ℕ)
      → Spelled force t v
      → convert_string_to_uint64 before true force stop (some t)
        ≡ (if ltb v (2 ^ 64) then (success, stores v) else (error device_error, indeterminate))
  unfolding store_value verdict
  convert_string_to_uint64-Spelled force t v spelled =
      string_converts true force t (verdict v) (number-Spelled before stop force t v spelled)
        (skip_spaces-Spelled before stop force t v spelled)
        (walker_converts true force t v (Spelled-some before stop force t v spelled)
          (number-Spelled before stop force t v spelled) (conversion before stop force t v spelled))

  is_not_found-verdict : (v : ℕ) → is_not_found (store_value false (verdict v)).0 ≡ ltb v (2 ^ 64)
  unfolding store_value verdict
  is_not_found-verdict v = ground arith

  -- ConsoleIsHexOrDecimalNumber of such a text tells whether the number has 64 bits.
  pub is_hex_or_decimal_number-Spelled :
      (force : Bool) (t : List ℕ) (v : ℕ)
      → Spelled force t v
      → is_hex_or_decimal_number before force stop (some t) ≡ ltb v (2 ^ 64)
  unfolding is_hex_or_decimal_number
  is_hex_or_decimal_number-Spelled force t v spelled =
      let converted =
        string_converts false force t (store_value false (verdict v))
          (number-Spelled before stop force t v spelled)
          (skip_spaces-Spelled before stop force t v spelled)
          (walker_converts false force t v (Spelled-some before stop force t v spelled)
            (number-Spelled before stop force t v spelled)
            (conversion before stop force t v spelled)) in
      rw converted (is_not_found-verdict v)

  minus_decimal : (s : List ℕ) → str_decimal_to_uint64 stop (45 ∷ s) ≡ (success, stores 0)
  unfolding str_decimal_to_uint64
  minus_decimal s = elim (Bool-cases stop) [ inl yes_stop ↦ rw yes_stop refl | inr on ↦ rw on refl ]

  minus_hex : (s : List ℕ) → str_hex_to_uint64 before stop (45 ∷ s) ≡ (success, stores 0)
  unfolding str_hex_to_uint64 hex_digits
  minus_hex s = refl

  minus_number :
      (force : Bool) (t : List ℕ) (v : ℕ)
      → Spelled force t v
      → internal_is_hex_or_decimal_number force stop false (some (45 ∷ t)) ≡ true
  unfolding internal_is_hex_or_decimal_number
  minus_number force t v spelled = unsigned-Spelled before stop force t v spelled

  minus_conversion :
      (force : Bool) (t : List ℕ)
      → (if force || has_prefix (45 ∷ t)
          then str_hex_to_uint64 before stop (45 ∷ t)
          else str_decimal_to_uint64 stop (45 ∷ t))
        ≡ (success, stores 0)
  unfolding has_prefix
  minus_conversion true t = minus_hex t
  minus_conversion false t = minus_decimal t

  minus_walker :
      (force : Bool) (t : List ℕ)
      → internal_is_hex_or_decimal_number force stop false (some (45 ∷ t)) ≡ true
      → convert_walker before true force stop (45 ∷ t) ≡ (success, stores 0)
  unfolding convert_walker store_value
  minus_walker force t number = rw (number, minus_conversion force t) refl

  -- A minus sign in front of a text that spells a number is let pass by the test, but the conversion
  -- stops at it: the result is success and zero.
  pub convert_string_to_uint64_minus :
      (force : Bool) (t : List ℕ) (v : ℕ)
      → Spelled force t v
      → convert_string_to_uint64 before true force stop (some (45 ∷ t)) ≡ (success, stores 0)
  convert_string_to_uint64_minus force t v spelled =
      let number = minus_number force t v spelled in
      string_converts true force (45 ∷ t) (success, stores 0) number
        (skip_spaces-digit 45 t (omega arith)) (minus_walker force t number)
