-- ===== src/UefiConsole/CommandLine/Next/Escaped.antt =====
-- GetNextParameter of Drivers/Dxe/UefiConsole/ConsoleParameters.c reads a parameter that is written
-- with escape characters.
use uefi_toolkit_pkg.Base.{
  ℕ, zero, suc, ◌+◌, ◌-◌, ◌≤◌, ◌<◌, ◌≡◌, refl, ap, Bool, true, false, ◌||◌, List, [], ◌∷◌, ◌++◌,
  some, length, take, replicate, ◌==◌, if◌then◌else◌, Bool-cases, inl, inr, length-append,
  take-append, success, arith,
}
use uefi_toolkit_pkg.UefiConsole.CommandLine.{is_listed, walk, find_first_character}
use uefi_toolkit_pkg.UefiConsole.CommandLine.Next.{
  find_end_of_parameter, skip_leading, clean, add_nul, on_delim, get_next_parameter,
}

unfoldable pub is_special : ℕ → Bool
is_special c = c == 32 || c == 34 || c == 94

-- A parameter with an escape character before each space, quote and escape character.
unfoldable pub escape : List ℕ → List ℕ
escape [] = []
escape (c ∷ s) = let rest = escape s in if is_special c then 94 ∷ c ∷ rest else c ∷ rest

-- A text that is empty or starts with a space.
abbrev pub Delimited : List ℕ → Type 0
Delimited [] = Unit
Delimited (c ∷ s) = c ≡ 32

escape_special : (c : ℕ) (s : List ℕ) → is_special c ≡ true → escape (c ∷ s) ≡ 94 ∷ c ∷ escape s
unfolding escape
escape_special c s h = rw h refl

escape_plain : (c : ℕ) (s : List ℕ) → is_special c ≡ false → escape (c ∷ s) ≡ c ∷ escape s
unfolding escape
escape_plain c s h = rw h refl

plain_tests :
    (c : ℕ) → is_special c ≡ false → ((c == 94) ≡ false) × ((c == 34) ≡ false) × ((c == 32) ≡ false)
unfolding is_special
plain_tests c h = ground arith

listed_plain : (c : ℕ) → is_special c ≡ false → is_listed (32 ∷ 34 ∷ []) c ≡ false
unfolding is_listed is_special
listed_plain c h = ground arith

walk-escape :
    (s rest : List ℕ) → Delimited rest → walk (32 ∷ 34 ∷ []) 94 false (escape s ++ rest) ≡ rest
unfolding walk escape is_listed
walk-escape [] [] h = refl
walk-escape [] (c ∷ rest) h = rw h refl
walk-escape (c ∷ s) rest h = elim (Bool-cases (is_special c)) [
  | inl special ↦ rw (escape_special c s special) (walk-escape s rest h)
  | inr plain ↦
      let t = plain_tests c plain in
      rw (escape_plain c s plain, t.0, listed_plain c plain) (walk-escape s rest h)
]

clean-escape : (strip : Bool) (s : List ℕ) → clean strip false (escape s) ≡ s
unfolding clean escape
clean-escape strip [] = refl
clean-escape strip (c ∷ s) = elim (Bool-cases (is_special c)) [
  | inl special ↦ rw (escape_special c s special) (ap (λ t. c ∷ t) (clean-escape strip s))
  | inr plain ↦
      let t = plain_tests c plain in
      rw (escape_plain c s plain, t.0, t.1) (ap (λ t. c ∷ t) (clean-escape strip s))
]

find_end-escape :
    (n : ℕ) (s rest : List ℕ)
    → 0 < n
    → Delimited rest
    → find_end_of_parameter n (escape s ++ rest) ≡ some rest
unfolding find_end_of_parameter find_first_character
find_end-escape zero s rest some_fuel h = absurd (omega arith)
find_end-escape (suc n) s [] some_fuel h = rw (walk-escape s [] h) refl
find_end-escape (suc n) s (c ∷ rest) some_fuel h = rw (walk-escape s (c ∷ rest) h, h) refl

-- The first character of an escaped text is no space.
StartsTight : List ℕ → Type 0
StartsTight [] = ⊥
StartsTight (c ∷ s) = (c == 32) ≡ false

escape-StartsTight : (c : ℕ) (s rest : List ℕ) → StartsTight (escape (c ∷ s) ++ rest)
unfolding StartsTight
escape-StartsTight c s rest = elim (Bool-cases (is_special c)) [
  | inl special ↦ rw (escape_special c s special) refl
  | inr plain ↦ rw (escape_plain c s plain) (plain_tests c plain).2
]

skip_leading-StartsTight : (s : List ℕ) → StartsTight s → skip_leading s ≡ s
unfolding StartsTight skip_leading
skip_leading-StartsTight [] h = elim h [ ]
skip_leading-StartsTight (c ∷ s) h = rw h refl

skip_leading-replicate :
    (k : ℕ) (s : List ℕ) → StartsTight s → skip_leading (replicate k 32 ++ s) ≡ s
unfolding skip_leading
skip_leading-replicate zero s h = skip_leading-StartsTight s h
skip_leading-replicate (suc k) s h = skip_leading-replicate k s h

take-take : (n : ℕ) (t : List ℕ) → take n (take n t) ≡ take n t
take-take zero t = refl
take-take (suc n) [] = refl
take-take (suc n) (c ∷ t) = ap (λ s. c ∷ s) (take-take n t)

-- An escaped parameter is not empty.
pub escape_room : (c : ℕ) (s rest : List ℕ) → 0 < length (escape (c ∷ s) ++ rest)
escape_room c s rest = elim (Bool-cases (is_special c)) [
  | inl special ↦ rw (escape_special c s special) (ground arith)
  | inr plain ↦ rw (escape_plain c s plain) (ground arith)
]

pub not_zero : (n : ℕ) → 0 < n → (n == 0) ≡ false
not_zero n h = ground arith

add_nul-take : (n : ℕ) (next t : List ℕ) → add_nul n next (take n t) ≡ take n t
add_nul-take n [] t = refl
add_nul-take n (c ∷ next) t = take-take n t

module _ (debug : Bool) (str_n_cpy_s : ℕ → List ℕ → ℕ → List ℕ → List ℕ)
    -- StrnCpyS copies what fits.
    (copies : (max : ℕ) (s : List ℕ) (n : ℕ) (old : List ℕ)
      → n < max
      → n ≤ length s
      → str_n_cpy_s max s n old ≡ take n s) where
  on_delim-escape :
      (strip : Bool) (max : ℕ) (s rest temp : List ℕ)
      → length (escape s) < max
      → on_delim debug str_n_cpy_s strip max (escape s ++ rest) temp (some rest)
        ≡ (success, some rest, some s)
  unfolding on_delim
  on_delim-escape strip max s rest temp fits =
      let n : length (escape s ++ rest) - length rest ≡ length (escape s) =
        omega (arith, length-append (escape s) rest) in
      let bound : length (escape s) ≤ length (escape s ++ rest) =
        omega (arith, length-append (escape s) rest) in
      rw
        (
          n,
          copies max (escape s ++ rest) (length (escape s)) temp fits bound,
          add_nul-take (length (escape s)) rest (escape s ++ rest),
          take-append (escape s) rest,
          clean-escape strip s,
        )
        refl

  -- For every parameter that is not empty, written with an escape character before each space,
  -- quote and escape character, behind any number of spaces and in front of the end of the command
  -- line or a space: when TempParameter has room for what is written, GetNextParameter succeeds,
  -- leaves the parameter itself in TempParameter and Walker at what follows it, whether quotes are
  -- stripped or not. That StrnCpyS copies what fits is a hypothesis.
  pub get_next_parameter-escape :
      (strip : Bool) (max k c : ℕ) (s rest temp : List ℕ)
      → Delimited rest
      → length (escape (c ∷ s)) < max
      → get_next_parameter debug str_n_cpy_s strip max
          (some (replicate k 32 ++ (escape (c ∷ s) ++ rest)))
          (some temp)
        ≡ (success, some rest, some (c ∷ s))
  unfolding get_next_parameter
  get_next_parameter-escape strip max k c s rest temp h fits =
      let walker : List ℕ = escape (c ∷ s) ++ rest in
      let room : 0 < length walker = escape_room c s rest in
      rw
        (
          skip_leading-replicate k walker (escape-StartsTight c s rest),
          not_zero (length walker) room,
          find_end-escape (length walker + 1) (c ∷ s) rest (omega arith) h,
        )
        (on_delim-escape strip max (c ∷ s) rest temp fits)
