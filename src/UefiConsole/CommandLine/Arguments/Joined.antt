-- ===== src/UefiConsole/CommandLine/Arguments/Joined.antt =====
-- ParseCommandLineToArgs of Drivers/Dxe/UefiConsole/ConsoleParameters.c finds the parameters that a
-- command line is made of.
use uefi_toolkit_pkg.Base.{
  ℕ, zero, suc, ◌+◌, ◌≤◌, ◌<◌, ◌≡◌, refl, ap, Bool, true, List, [], ◌∷◌, ◌++◌, some, map, length,
  take, replicate, length-append, success, arith,
}
use uefi_toolkit_pkg.UefiConsole.CommandLine.{trim_left, trim_right, trim_spaces}
use uefi_toolkit_pkg.UefiConsole.CommandLine.Trimmed.{
  StartsSolid, EndsSolid, ends_empty, ends_in, trim_right_step,
}
use uefi_toolkit_pkg.UefiConsole.CommandLine.Next.{get_next_parameter}
use uefi_toolkit_pkg.UefiConsole.CommandLine.Next.Escaped.{
  escape, Delimited, escape_room, not_zero, get_next_parameter-escape,
}
use uefi_toolkit_pkg.UefiConsole.CommandLine.Arguments.{
  Pool, given, has_more, count_loop, copy_loop, fill_array, parse_command_line_to_args,
}

-- A parameter that is not empty: its first character and the others.
abbrev pub Word : Type 0
Word = ℕ × List ℕ

abbrev pub word_text : Word → List ℕ
word_text w = w.0 ∷ w.1

-- What follows a parameter: each further one behind a space.
unfoldable pub further : List Word → List ℕ
further [] = []
further (w ∷ ws) = 32 ∷ (escape (word_text w) ++ further ws)

-- A command line of parameters, with an escape character before each space, quote and escape
-- character.
abbrev pub joined : Word → List Word → List ℕ
joined w ws = escape (word_text w) ++ further ws

trim_right_self : (n : ℕ) (s : List ℕ) → EndsSolid s → trim_right n s ≡ s
unfolding trim_right
trim_right_self zero s h = refl
trim_right_self (suc n) _ ends_empty = refl
trim_right_self (suc n) _ (ends_in s c h) = rw (trim_right_step n s c, h) refl

trim_left_self : (s : List ℕ) → StartsSolid s → trim_left s ≡ s
unfolding trim_left
trim_left_self [] h = refl
trim_left_self (c ∷ s) h = rw h refl

pub trim_spaces_self : (s : List ℕ) → StartsSolid s → EndsSolid s → trim_spaces s ≡ s
unfolding trim_spaces
trim_spaces_self s starts ends = rw (trim_left_self s starts) (trim_right_self (length s) s ends)

further-Delimited : (ws : List Word) → Delimited (further ws)
unfolding further
further-Delimited [] = tt
further-Delimited (w ∷ ws) = refl

has_more_long : (s : List ℕ) → 0 < length s → has_more (some s) ≡ true
has_more_long [] h = absurd (omega (arith, h))
has_more_long (c ∷ s) h = refl

-- The text behind `k` spaces.
abbrev pub behind : ℕ → Word → List Word → List ℕ
behind k w ws = replicate k 32 ++ joined w ws

pub behind_room : (k : ℕ) (w : Word) (ws : List Word) → 0 < length (behind k w ws)
behind_room zero w ws = escape_room w.0 w.1 (further ws)
behind_room (suc k) w ws = ground arith

joined_bounds :
    (k : ℕ) (w : Word) (ws : List Word)
    → (length (escape (word_text w)) ≤ length (behind k w ws))
      × (length (further ws) ≤ length (behind k w ws))
joined_bounds k w ws =
    let outer = length-append (replicate k 32) (joined w ws) in
    let inner = length-append (escape (word_text w)) (further ws) in
    (omega (arith, outer, inner), omega (arith, outer, inner))

further_fuel : (ws : List Word) → length ws ≤ length (further ws)
unfolding further
further_fuel [] = omega arith
further_fuel (w ∷ ws) =
    omega (arith, further_fuel ws, length-append (escape (word_text w)) (further ws))

joined_fuel : (w : Word) (ws : List Word) → length ws + 2 ≤ length (joined w ws) + 1 + 1
joined_fuel w ws = omega (arith, further_fuel ws, (joined_bounds zero w ws).1)

pub length-map : (f : Word → List ℕ) (ws : List Word) → length (map f ws) ≡ length ws
length-map f [] = refl
length-map f (w ∷ ws) = ap suc (length-map f ws)

module _ (debug : Bool) (str_n_cpy_s : ℕ → List ℕ → ℕ → List ℕ → List ℕ)
    -- StrnCpyS copies what fits.
    (copies : (max : ℕ) (s : List ℕ) (n : ℕ) (old : List ℕ)
      → n < max
      → n ≤ length s
      → str_n_cpy_s max s n old ≡ take n s) where
  pub next_word :
      (strip : Bool) (max k : ℕ) (w : Word) (ws : List Word) (temp : List ℕ)
      → length (behind k w ws) < max
      → get_next_parameter debug str_n_cpy_s strip max (some (behind k w ws)) (some temp)
        ≡ (success, some (further ws), some (word_text w))
  next_word strip max k w ws temp fits =
      get_next_parameter-escape debug str_n_cpy_s copies strip max k w.0 w.1 (further ws) temp
        (further-Delimited ws) (omega (arith, fits, (joined_bounds k w ws).0))

  count_joined :
      (n max k : ℕ) (w : Word) (ws : List Word) (temp : List ℕ)
      → length (behind k w ws) < max
      → length ws + 2 ≤ n
      → count_loop
          (λ st. get_next_parameter debug str_n_cpy_s st max)
          n
          (some (behind k w ws))
          (some temp)
        ≡ some (suc (length ws))
  unfolding count_loop further
  count_joined zero max k w ws temp fits fuel = absurd (omega (arith, fuel))
  count_joined (suc zero) max k w ws temp fits fuel = absurd (omega (arith, fuel))
  count_joined (suc (suc n)) max k w [] temp fits fuel =
      rw (has_more_long (behind k w []) (behind_room k w []), next_word true max k w [] temp fits)
        refl
  count_joined (suc (suc n)) max k w (v ∷ ws) temp fits fuel =
      rw
        (
          has_more_long (behind k w (v ∷ ws)) (behind_room k w (v ∷ ws)),
          next_word true max k w (v ∷ ws) temp fits,
          count_joined (suc n) max 1 v ws (word_text w)
              (omega (arith, fits, (joined_bounds k w (v ∷ ws)).1)) (omega (arith, fuel)),
        )
        (ap some (omega arith))

  copy_joined :
      (strip : Bool) (room : ℕ → Bool) (n i max k : ℕ) (w : Word) (ws : List Word)
      → ((j : ℕ) → room j ≡ true)
      → length (behind k w ws) < max
      → length ws + 2 ≤ n
      → copy_loop
          (λ st. get_next_parameter debug str_n_cpy_s st max)
          strip
          room
          n
          i
          (some (behind k w ws))
        ≡ some (success, map word_text (w ∷ ws))
  unfolding copy_loop further
  copy_joined strip room zero i max k w ws rooms fits fuel = absurd (omega (arith, fuel))
  copy_joined strip room (suc zero) i max k w ws rooms fits fuel = absurd (omega (arith, fuel))
  copy_joined strip room (suc (suc n)) i max k w [] rooms fits fuel =
      rw
        (
          has_more_long (behind k w []) (behind_room k w []),
          next_word strip max k w [] [] fits,
          rooms i,
        )
        refl
  copy_joined strip room (suc (suc n)) i max k w (v ∷ ws) rooms fits fuel =
      rw
        (
          has_more_long (behind k w (v ∷ ws)) (behind_room k w (v ∷ ws)),
          next_word strip max k w (v ∷ ws) [] fits,
          rooms i,
          copy_joined strip room (suc n) (i + 1) max 1 v ws rooms
              (omega (arith, fits, (joined_bounds k w (v ∷ ws)).1)) (omega (arith, fuel)),
        )
        refl

  -- For every list of parameters that are not empty, written one behind the other with a space
  -- between them and an escape character before each space, quote and escape character, such that
  -- the line neither starts nor ends with a space or a tab: when the pool has room,
  -- ParseCommandLineToArgs ends, succeeds and sets Argv to these parameters and Argc to their
  -- number, whether quotes are stripped or not. That StrnCpyS copies what fits is a hypothesis.
  pub parse_command_line_to_args-joined :
      (pool : Pool) (strip : Bool) (w : Word) (ws : List Word)
      → pool.line_room ≡ true
      → pool.temp_room ≡ true
      → pool.array_room ≡ true
      → ((j : ℕ) → pool.room j ≡ true)
      → StartsSolid (joined w ws)
      → EndsSolid (joined w ws)
      → parse_command_line_to_args debug str_n_cpy_s pool (some (joined w ws)) strip
        ≡ some (success, given (map word_text (w ∷ ws)) (length (w ∷ ws)))
  unfolding parse_command_line_to_args fill_array
  parse_command_line_to_args-joined pool strip w ws line_room temp_room array_room rooms starts
        ends =
      let size : ℕ = length (joined w ws) + 1 in
      let fuel = joined_fuel w ws in
      rw
        (
          not_zero (length (joined w ws)) (behind_room zero w ws),
          line_room,
          temp_room,
          trim_spaces_self (joined w ws) starts ends,
          count_joined (size + 1) size zero w ws [] (omega arith) (omega (arith, fuel)),
          copy_joined strip pool.room (size + 1) 0 size zero w ws rooms (omega arith)
              (omega (arith, fuel)),
          array_room,
          length-map word_text ws,
        )
        refl
