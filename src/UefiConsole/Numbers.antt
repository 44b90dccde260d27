-- ===== src/UefiConsole/Numbers.antt =====
-- The conversion of numbers in Drivers/Dxe/UefiConsole/ConsoleParameters.c. A text is the list of
-- its characters before the NUL. The 64-bit shifts, products and quotients of BaseLib are written
-- as what they compute.
pub mod Loops
pub mod Spelling
pub mod Converted
use uefi_toolkit_pkg.Base.{
  ℕ, zero, suc, ◌+◌, ◌-◌, ◌*◌, ◌/◌, ◌%◌, ◌^◌, Bool, true, false, ◌&&◌, ◌||◌, not, List, [], ◌∷◌,
  Option, none, some, ltb, leb, ◌==◌, if◌then◌else◌, ◌⊎◌, inl, inr, Status, success, error,
  invalid_parameter, device_error, not_found, efi_error,
}

unfoldable pub is_decimal_digit : ℕ → Bool
is_decimal_digit c = leb 48 c && leb c 57

unfoldable pub is_hexa_decimal_digit : ℕ → Bool
is_hexa_decimal_digit c =
    (leb 48 c && leb c 57) || (leb 65 c && leb c 70) || (leb 97 c && leb c 102)

unfoldable pub char_to_upper : ℕ → ℕ
char_to_upper c = if leb 97 c && leb c 122 then c - 32 else c

unfoldable pub hex_char_to_uintn : ℕ → ℕ
unfolding is_decimal_digit char_to_upper
hex_char_to_uintn c = if is_decimal_digit c then c - 48 else 10 + char_to_upper c - 65

-- *String, which is the NUL at the end.
abbrev pub head_char : List ℕ → ℕ
head_char [] = 0
head_char (c ∷ s) = c

abbrev pub tail_text : List ℕ → List ℕ
tail_text [] = []
tail_text (c ∷ s) = s

-- String behind the spaces and tabs, and behind the zeros.
unfoldable pub skip_pad : List ℕ → List ℕ
skip_pad [] = []
skip_pad (c ∷ s) = if c == 32 || c == 9 then skip_pad s else c ∷ s

unfoldable pub skip_zeros : List ℕ → List ℕ
skip_zeros [] = []
skip_zeros (c ∷ s) = if c == 48 then skip_zeros s else c ∷ s

unfoldable pub skip_spaces : List ℕ → List ℕ
skip_spaces [] = []
skip_spaces (c ∷ s) = if c == 32 then skip_spaces s else c ∷ s

-- What a conversion leaves in its result: as it was, what was never set, or a number.
pub data Stored : Type 0 where
  kept indeterminate : Stored
  stores : ℕ → Stored

-- One digit: the overflow, the end of the number, or the number and what follows.
abbrev pub on_digit : (ℕ → Bool → Status × Stored) → Bool → ℕ → ℕ → ℕ → ℕ → Status × Stored
on_digit next stop base digit result after =
    if leb result ((2 ^ 64 - 1 - digit) / base)
    then next ((result * base + digit) % 2 ^ 64) (stop && after == 32)
    else (error device_error, indeterminate)

-- The loops over the digits. The number ends behind a digit if `ends` was found there.
unfoldable pub hex_loop : Bool → List ℕ → ℕ → Bool → Status × Stored
unfolding is_hexa_decimal_digit hex_char_to_uintn
hex_loop stop s result true = (success, stores result)
hex_loop stop [] result false = (success, stores result)
hex_loop stop (c ∷ s) result false =
    let next = on_digit (hex_loop stop s) stop 16 (hex_char_to_uintn c) result (head_char s) in
    if is_hexa_decimal_digit c then next else (success, stores result)

unfoldable pub decimal_loop : Bool → List ℕ → ℕ → Bool → Status × Stored
unfolding is_decimal_digit
decimal_loop stop s result true = (success, stores result)
decimal_loop stop [] result false = (success, stores result)
decimal_loop stop (c ∷ s) result false =
    let next = on_digit (decimal_loop stop s) stop 10 (c - 48) result (head_char s) in
    if is_decimal_digit c then next else (success, stores result)

-- String[-1] where the zeros end, if it is '0': `before` is the character in front of the text.
unfoldable pub zero_before : ℕ → List ℕ → Bool
unfolding skip_pad
zero_before before s =
    let here = head_char (skip_pad s) in
    if here == 48
    then true
    else if head_char s == 32 || head_char s == 9
    then false
    else before == 48

-- Behind the prefix.
unfoldable pub hex_digits : Bool → List ℕ → Status × Stored
unfolding hex_loop
hex_digits stop s =
    if head_char s == 32 then (error invalid_parameter, indeterminate) else hex_loop stop s 0 false

unfoldable pub str_hex_to_uint64 : ℕ → Bool → List ℕ → Status × Stored
unfolding skip_pad skip_zeros char_to_upper zero_before hex_digits
str_hex_to_uint64 before stop string =
    let s = skip_zeros (skip_pad string) in
    if char_to_upper (head_char s) == 88
    then if zero_before before string
      then hex_digits stop (tail_text s)
      else (success, indeterminate)
    else hex_digits stop s

unfoldable pub str_decimal_to_uint64 : Bool → List ℕ → Status × Stored
unfolding skip_pad skip_zeros decimal_loop
str_decimal_to_uint64 stop string =
    let s = skip_zeros (skip_pad string) in
    if stop && head_char s == 32 then (success, stores 0) else decimal_loop stop s 0 false

-- The loop over the remaining characters.
unfoldable pub number_loop : Bool → Bool → Bool → List ℕ → Bool
unfolding is_hexa_decimal_digit is_decimal_digit
number_loop hex stop time [] = true
number_loop hex stop time (c ∷ s) =
    let rest = number_loop hex stop time s in
    if stop && c == 32
    then true
    else if time && c == 58
    then rest
    else if hex
    then if is_hexa_decimal_digit c then rest else false
    else if is_decimal_digit c
    then rest
    else false

-- Behind the sign.
unfoldable pub unsigned_number : Bool → Bool → Bool → List ℕ → Bool
unfolding skip_zeros number_loop
unsigned_number force_hex stop time [] = false
unsigned_number force_hex stop time (c ∷ s) =
    let t = skip_zeros (c ∷ s) in
    if head_char t == 120 || head_char t == 88
    then if c == 48 then number_loop true stop time (tail_text t) else false
    else number_loop force_hex stop time t

unfoldable pub internal_is_hex_or_decimal_number : Bool → Bool → Bool → Option (List ℕ) → Bool
unfolding unsigned_number
internal_is_hex_or_decimal_number force_hex stop time none = false
internal_is_hex_or_decimal_number force_hex stop time (some s) =
    if head_char s == 45
    then unsigned_number force_hex stop time (tail_text s)
    else unsigned_number force_hex stop time s

-- The first two characters are "0x" or "0X".
unfoldable pub has_prefix : List ℕ → Bool
has_prefix s =
    head_char s == 48 && (head_char (tail_text s) == 120 || head_char (tail_text s) == 88)

-- Value is NULL if nothing is to be stored.
unfoldable pub store_value : Bool → Status × Stored → Status × Stored
store_value to_store (status, value) =
    if to_store
    then (status, value)
    else if efi_error status
    then (status, kept)
    else (error not_found, kept)

unfoldable pub convert_walker : ℕ → Bool → Bool → Bool → List ℕ → Status × Stored
convert_walker before to_store hex stop [] = (error invalid_parameter, kept)
convert_walker before to_store hex stop (c ∷ s) =
    if internal_is_hex_or_decimal_number hex stop false (some (c ∷ s))
    then store_value to_store (
        if hex || has_prefix (c ∷ s)
        then str_hex_to_uint64 before stop (c ∷ s)
        else str_decimal_to_uint64 stop (c ∷ s))
    else (error invalid_parameter, kept)

-- With a NULL or a text; `before` stands in front of the number.
unfoldable pub convert_string_to_uint64 : ℕ → Bool → Bool → Bool → Option (List ℕ) → Status × Stored
convert_string_to_uint64 before to_store force_hex stop none = (error invalid_parameter, kept)
convert_string_to_uint64 before to_store force_hex stop (some s) =
    let as_given = convert_walker before to_store force_hex stop (skip_spaces s) in
    let as_hex = convert_walker before to_store true stop (skip_spaces s) in
    if internal_is_hex_or_decimal_number force_hex stop false (some s)
    then as_given
    else if not force_hex && internal_is_hex_or_decimal_number true stop false (some s)
    then as_hex
    else (error invalid_parameter, kept)

abbrev pub is_not_found : Status → Bool
is_not_found (error not_found) = true
is_not_found _ = false

unfoldable pub is_hex_or_decimal_number : ℕ → Bool → Bool → Option (List ℕ) → Bool
is_hex_or_decimal_number before force_hex stop string =
    is_not_found (convert_string_to_uint64 before false force_hex stop string).0
