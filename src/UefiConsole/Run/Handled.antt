-- ===== src/UefiConsole/Run/Handled.antt =====
-- RunShellCommand of Drivers/Dxe/UefiConsole/UefiConsole.c hands a command line to the handler of its
-- first parameter.
use uefi_toolkit_pkg.Base.{
  ℕ, ◌+◌, ◌≤◌, ◌<◌, ◌≡◌, ◌≢◌, refl, ap, Bool, true, false, ◌&&◌, List, [], ◌∷◌, map, Option, some,
  length, take, Lacks, ◌==◌, Status, arith,
}
use uefi_toolkit_pkg.UefiConsole.CommandLine.Next.Escaped.{not_zero}
use uefi_toolkit_pkg.UefiConsole.CommandLine.Trimmed.{StartsSolid, EndsSolid}
use uefi_toolkit_pkg.UefiConsole.CommandLine.Arguments.Joined.{
  Word, word_text, joined, behind_room, next_word, trim_spaces_self,
  parse_command_line_to_args-joined,
}
use uefi_toolkit_pkg.UefiConsole.Run.{
  ShellParameters, Console, Ran, Rooms, with_arguments, keeps, starts_hash, cut_comment,
  drop_escapes, update_argc_argv, on_handler, restore_argc_argv, on_update, run_internal_command,
  run_clean, run_shell_command,
}

no_hash : (c : ℕ) (s : List ℕ) → c ≢ 35 → (c == 35) ≡ false
no_hash c s h = ground (arith, h)

starts_hash-Lacks : (s : List ℕ) → Lacks 35 s → starts_hash s ≡ false
unfolding starts_hash
starts_hash-Lacks [] h = refl
starts_hash-Lacks (c ∷ s) h = no_hash c s h.0

no_escape : (c : ℕ) (s : List ℕ) → Lacks 35 s → (c == 94 && starts_hash s) ≡ false
no_escape c s h = let e = starts_hash-Lacks s h in ground (arith, e)

pub cut_comment-Lacks : (s : List ℕ) → Lacks 35 s → cut_comment false s ≡ s
unfolding cut_comment
cut_comment-Lacks [] h = refl
cut_comment-Lacks (c ∷ s) h =
    rw (no_escape c s h.1, no_hash c s h.0) (ap (λ t. c ∷ t) (cut_comment-Lacks s h.1))

pub drop_escapes-Lacks : (s : List ℕ) → Lacks 35 s → drop_escapes false s ≡ s
unfolding drop_escapes
drop_escapes-Lacks [] h = refl
drop_escapes-Lacks (c ∷ s) h = rw (no_escape c s h.1) (ap (λ t. c ∷ t) (drop_escapes-Lacks s h.1))

-- The pool has room for everything.
pub record HasRoom (rooms : Rooms) : Type 0 where
  pub clean : rooms.clean_room ≡ true
  pub first : rooms.first_room ≡ true
  pub copy : rooms.copy_room ≡ true
  pub line : rooms.arguments.line_room ≡ true
  pub temp : rooms.arguments.temp_room ≡ true
  pub array : rooms.arguments.array_room ≡ true
  pub each : (j : ℕ) → rooms.arguments.room j ≡ true

-- The parameters that a handler finds.
abbrev pub parameters_of : Word → List Word → ShellParameters
parameters_of w ws = record {
  argv = some (map word_text (w ∷ ws));
  argc = length (w ∷ ws);
  dangling = false;
}

module _ (debug : Bool) (str_n_cpy_s : ℕ → List ℕ → ℕ → List ℕ → List ℕ)
    -- StrnCpyS copies what fits.
    (copies : (max : ℕ) (s : List ℕ) (n : ℕ) (old : List ℕ)
      → n < max
      → n ≤ length s
      → str_n_cpy_s max s n old ≡ take n s)
    (rooms : Rooms) (has_room : HasRoom rooms) {S : Type 0}
    (run : List ℕ → Console S → Status × Option (Bool × ℕ) × Console S) where
  -- The handler's run and what follows it.
  abbrev pub handled : Word → List Word → Console S → Ran S
  handled w ws c = restore_argc_argv debug str_n_cpy_s rooms run false c.parameters (
      on_handler debug str_n_cpy_s rooms run
        (run (word_text w) (record c { parameters = parameters_of w ws })))

  run_internal_command-joined :
      (w : Word) (ws : List Word) (c : Console S)
      → StartsSolid (joined w ws)
      → EndsSolid (joined w ws)
      → Lacks 35 (joined w ws)
      → run_internal_command debug str_n_cpy_s rooms run (joined w ws) (word_text w) c
        ≡ some (handled w ws c)
  unfolding run_internal_command update_argc_argv with_arguments keeps on_update
  run_internal_command-joined w ws c starts ends lacks =
      rw
        (
          has_room.copy,
          drop_escapes-Lacks (joined w ws) lacks,
          parse_command_line_to_args-joined debug str_n_cpy_s copies rooms.arguments true w ws
              has_room.line has_room.temp has_room.array has_room.each starts ends,
        )
        refl

  -- For every list of parameters that are not empty, written as one line with a space between them
  -- and an escape character before each space, quote and escape character, such that the line has
  -- no `#` and neither starts nor ends with a space or a tab: when the pool has room,
  -- RunShellCommand runs the handler of the first parameter once, with Argv and Argc these
  -- parameters and their number, and ends as its status and exit request say, with the shell
  -- parameters from before. That StrnCpyS copies what fits is a hypothesis.
  pub run_shell_command-joined :
      (w : Word) (ws : List Word) (c : Console S)
      → StartsSolid (joined w ws)
      → EndsSolid (joined w ws)
      → Lacks 35 (joined w ws)
      → run_shell_command debug str_n_cpy_s rooms run (joined w ws) c ≡ some (handled w ws c)
  unfolding run_shell_command run_clean run_internal_command on_handler update_argc_argv on_update
      restore_argc_argv
  run_shell_command-joined w ws c starts ends lacks =
      let line = joined w ws in
      rw
        (
          not_zero (length line) (behind_room 0 w ws),
          has_room.clean,
          trim_spaces_self line starts ends,
          cut_comment-Lacks line lacks,
          trim_spaces_self line starts ends,
          not_zero (length line) (behind_room 0 w ws),
          has_room.first,
          next_word debug str_n_cpy_s copies true (length line + 1) 0 w ws [] (omega arith),
        )
        (run_internal_command-joined w ws c starts ends lacks)
