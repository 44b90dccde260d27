-- ===== src/UefiConsole/Package/Given.antt =====
-- A command line of positional parameters, as ConsoleCommandLineParse of
-- Drivers/Dxe/UefiConsole/ConsoleParameters.c finds it in the shell parameters.
use uefi_toolkit_pkg.Base.{
  ℕ, ◌≡◌, ◌∙◌, refl, ap, sym, Bool, true, false, List, [], ◌∷◌, All, map, none, some, length, take,
  ◌==◌, success, arith,
}
use uefi_toolkit_pkg.UefiConsole.Numbers.Spelling.{Spelled, prefixed, hexadecimal, decimal}
use uefi_toolkit_pkg.UefiConsole.Package.{
  Compare, PackagePool, ParamItem, Param, unescaped, arguments_of, command_line_parse,
}
use uefi_toolkit_pkg.UefiConsole.Package.Pieces.{Piece, positional, line_words, Whole, Plain}
use uefi_toolkit_pkg.UefiConsole.Package.Read.{Reads, command_line_parse-Reads}
use uefi_toolkit_pkg.UefiConsole.Run.{ShellParameters}

abbrev pub given_words : List (List ℕ) → List Piece
given_words [] = []
given_words (t ∷ ts) = positional t ∷ given_words ts

given_words-line : (ts : List (List ℕ)) → line_words (given_words ts) ≡ map some ts
unfolding line_words
given_words-line [] = refl
given_words-line (t ∷ ts) = ap (λ l. some t ∷ l) (given_words-line ts)

take-length : (ts : List (List ℕ)) → take (length ts) ts ≡ ts
take-length [] = refl
take-length (t ∷ ts) = ap (λ l. t ∷ l) (take-length ts)

pub unescaped-Spelled : (force : Bool) (t : List ℕ) (v : ℕ) → Spelled force t v → unescaped t ≡ t
unfolding unescaped
unescaped-Spelled _ _ _ (prefixed force x s is_x h) = refl
unescaped-Spelled _ _ _ (hexadecimal c s h) =
    let digit = h.0 in let plain : (c == 94) ≡ false = ground (arith, digit) in rw plain refl
unescaped-Spelled _ _ _ (decimal c s h) =
    let digit = h.0 in let plain : (c == 94) ≡ false = ground (arith, digit) in rw plain refl

module _ (compare : Compare) (pool : PackagePool) (check_list : List ParamItem) where
  given_words-Whole :
      (ts : List (List ℕ))
      → All (Plain compare pool check_list false false) ts
      → All (Whole compare pool check_list false) (given_words ts)
  given_words-Whole [] h = tt
  given_words-Whole (t ∷ ts) h = (h.0, given_words-Whole ts h.1)

  -- The package of the shell parameters.
  pub given-Reads :
      (p : ShellParameters) (name : List ℕ) (ts : List (List ℕ))
      → pool.head_room ≡ true
      → ((i : ℕ) → pool.node_room i ≡ true)
      → ((i : ℕ) → pool.text_room i ≡ true)
      → p ≡ record { argv = some (name ∷ ts); argc = length (name ∷ ts); dangling = false }
      → All (Plain compare pool check_list false false) (name ∷ ts)
      → (items : List Param) × (command_line_parse compare pool check_list false (arguments_of p)
          ≡ (success, some items, none))
        × Reads compare pool (given_words (name ∷ ts)) items
  given-Reads p name ts head node_room text_room given plain =
      let texts = name ∷ ts in
      let parsed =
        command_line_parse-Reads compare pool check_list false (positional name) (given_words ts)
          head node_room text_room (given_words-Whole texts plain) in
      let line : arguments_of p ≡ line_words (given_words texts) =
        ap arguments_of given ∙ ap (map some) (take-length texts) ∙ sym (given_words-line texts) in
      (parsed.0, ap (command_line_parse compare pool check_list false) line ∙ parsed.1, parsed.2)
