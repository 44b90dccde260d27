-- ===== src/UefiConsole/CommandLine/Next.antt =====
-- FindEndOfParameter and GetNextParameter of Drivers/Dxe/UefiConsole/ConsoleParameters.c, on texts in
-- front of their NUL; Walker and TempParameter are addresses of pointers, which may be NULL (none).
pub mod Escaped
pub mod Fuel
use uefi_toolkit_pkg.Base.{
  ℕ, zero, suc, ◌+◌, ◌-◌, Bool, true, false, ◌&&◌, List, [], ◌∷◌, Option, none, some, length, take,
  ◌==◌, if◌then◌else◌, Status, success, error, invalid_parameter, not_found,
}
use uefi_toolkit_pkg.UefiConsole.CommandLine.{find_first_character}

abbrev pub on_close : (List ℕ → Option (List ℕ)) → List ℕ → Option (List ℕ)
on_close next [] = none
on_close next (c ∷ s) = next s

abbrev pub on_first : (List ℕ → Option (List ℕ)) → List ℕ → Option (List ℕ)
on_first next [] = some []
on_first next (c ∷ s) =
    let closed = on_close next (find_first_character (34 ∷ []) 94 s) in
    if c == 32 then some (c ∷ s) else closed

-- The text from the pointer that is returned, none for NULL; on fuel.
unfoldable pub find_end_of_parameter : ℕ → List ℕ → Option (List ℕ)
find_end_of_parameter zero s = none
find_end_of_parameter (suc n) s =
    on_first (find_end_of_parameter n) (find_first_character (32 ∷ 34 ∷ []) 94 s)

unfoldable pub skip_leading : List ℕ → List ℕ
skip_leading [] = []
skip_leading (c ∷ s) = let rest = skip_leading s in if c == 32 then rest else c ∷ s

-- The loop that removes quotes and escapes, behind an escape or not.
unfoldable pub clean : Bool → Bool → List ℕ → List ℕ
clean strip escaped [] = []
clean strip true (c ∷ s) = c ∷ clean strip false s
clean strip false (c ∷ s) =
    let rest = clean strip (c == 94) s in
    if c == 94 then rest else if c == 34 && strip then rest else c ∷ rest

-- A NUL at place `n` of the parameter, unless the command line ends there.
abbrev pub add_nul : ℕ → List ℕ → List ℕ → List ℕ
add_nul n [] t = t
add_nul n (c ∷ next) t = take n t

-- The status, *Walker and *TempParameter.
abbrev pub NextParameter : Type 0
NextParameter = Status × Option (List ℕ) × Option (List ℕ)

module _ (debug : Bool) (str_n_cpy_s : ℕ → List ℕ → ℕ → List ℕ → List ℕ) where
  -- *Walker on an error: NULL in a build with DEBUG_CODE.
  unfoldable pub give_up : Status → List ℕ → List ℕ → NextParameter
  give_up status walker temp = (status, if debug then none else some walker, some temp)

  unfoldable pub on_delim : Bool → ℕ → List ℕ → List ℕ → Option (List ℕ) → NextParameter
  on_delim strip max walker temp none = give_up (error not_found) walker temp
  on_delim strip max walker temp (some next) =
      let n : ℕ = length walker - length next in
      (
        success,
        some next,
        some (clean strip false (add_nul n next (str_n_cpy_s max walker n temp))),
      )

  -- `max` is Length / sizeof (CHAR16).
  unfoldable pub get_next_parameter : Bool → ℕ → Option (List ℕ) → Option (List ℕ) → NextParameter
  get_next_parameter strip max none temp = (error invalid_parameter, none, temp)
  get_next_parameter strip max (some w) none = (error invalid_parameter, some w, none)
  get_next_parameter strip max (some w) (some temp) =
      let walker : List ℕ = skip_leading w in
      let found : NextParameter =
        on_delim strip max walker temp (find_end_of_parameter (length walker + 1) walker) in
      if length walker == 0 then give_up (error invalid_parameter) walker temp else found
