-- ===== src/DebugShell/Tokens.antt =====
-- ShellTokenize of Library/DebugShellLib/DebugShellLib.c. The pointer `Line` is a split of the
-- buffer into what it has passed and what it points to; an entry of Argv is an offset into the
-- buffer. The end of the list reads as a NUL.
pub mod Words
pub mod Loop
use uefi_toolkit_pkg.Base.{
  ℕ, zero, suc, ◌+◌, Bool, true, ◌||◌, List, [], ◌∷◌, ◌++◌, Option, none, some, Bytes, length, leb,
  ◌==◌, if◌then◌else◌,
}

abbrev pub is_blank : ℕ → Bool
is_blank c = c == b' ' || c == b'\t'

unfoldable pub at_nul : Bytes → Bool
at_nul [] = true
at_nul (c ∷ s) = c == 0

-- Both inner loops: the bytes that the pointer passes, and the rest.
unfoldable pub skip_blanks : Bytes → Bytes × Bytes
skip_blanks [] = ([], [])
skip_blanks (c ∷ s) =
    let (passed, rest) = skip_blanks s in if is_blank c then (c ∷ passed, rest) else ([], c ∷ s)

unfoldable pub skip_word : Bytes → Bytes × Bytes
skip_word [] = ([], [])
skip_word (c ∷ s) =
    let (passed, rest) = skip_word s in
    if c == 0 || is_blank c then ([], c ∷ s) else (c ∷ passed, rest)

-- `if (*Line != '\0') { *Line++ = '\0'; }`
unfoldable pub cut : Bytes → Bytes → Bytes × Bytes
cut before [] = (before, [])
cut before (c ∷ s) = if c == 0 then (before, c ∷ s) else (before ++ 0 ∷ [], s)

-- The outer loop on fuel; `none` when the fuel runs out. The result is the buffer and Argv.
unfoldable pub tokenize_loop : ℕ → Bytes → Bytes → List ℕ → ℕ → Option (Bytes × List ℕ)
tokenize_loop zero before line argv max_args = none
tokenize_loop (suc fuel) before line argv max_args =
    let (blanks, start) = skip_blanks line in
    let (word, stop) = skip_word start in
    let (before', line') = cut (before ++ (blanks ++ word)) stop in
    let more = tokenize_loop fuel before' line' (argv ++ length (before ++ blanks) ∷ []) max_args in
    if at_nul line || leb max_args (length argv)
    then some (before ++ line, argv)
    else if at_nul start
    then some (before ++ line, argv)
    else more

unfoldable pub tokenize : Bytes → ℕ → Option (Bytes × List ℕ)
unfolding tokenize_loop
tokenize line max_args = tokenize_loop (suc (length line)) [] line [] max_args
