-- ===== src/UefiConsole/Run/Dangling.antt =====
-- RunShellCommand of Drivers/Dxe/UefiConsole/UefiConsole.c when ParseCommandLineToArgs of
-- ConsoleParameters.c fails before it sets *Argv.
use uefi_toolkit_pkg.Base.{
  ℕ, ◌+◌, ◌<◌, ◌≤◌, ◌≡◌, refl, Bool, true, false, List, [], ◌∷◌, Option, none, some, length, take,
  Lacks, ◌==◌, Status, error, out_of_resources, arith,
}
use uefi_toolkit_pkg.UefiConsole.CommandLine.Next.Escaped.{not_zero}
use uefi_toolkit_pkg.UefiConsole.CommandLine.Trimmed.{StartsSolid, EndsSolid}
use uefi_toolkit_pkg.UefiConsole.CommandLine.Arguments.{parse_command_line_to_args}
use uefi_toolkit_pkg.UefiConsole.CommandLine.Arguments.Joined.{
  Word, word_text, joined, behind_room, next_word, trim_spaces_self,
}
use uefi_toolkit_pkg.UefiConsole.Run.{
  ShellParameters, Console, Rooms, with_arguments, keeps, put_back, given_up, drop_escapes,
  update_argc_argv, on_handler, restore_argc_argv, on_update, run_internal_command, run_clean,
  run_shell_command,
}
use uefi_toolkit_pkg.UefiConsole.Run.Handled.{cut_comment-Lacks, drop_escapes-Lacks}
use uefi_toolkit_pkg.UefiConsole.Run.Restored.{parses}

given_up_lem :
    (p : ShellParameters) (texts : List (List ℕ))
    → p.argv ≡ some texts
    → given_up p ≡ take p.argc texts ∷ []
unfolding given_up
given_up_lem p texts old = rw old refl

put_back_lem :
    (p : ShellParameters) (texts : List (List ℕ))
    → p.argv ≡ some texts
    → put_back true p ≡ record p { dangling = true }
unfolding put_back
put_back_lem p texts old = rw old refl

module _ (debug : Bool) (str_n_cpy_s : ℕ → List ℕ → ℕ → List ℕ → List ℕ) (rooms : Rooms)
    {S : Type 0} (run : List ℕ → Console S → Status × Option (Bool × ℕ) × Console S) where
  run_internal_command-dangling :
      (line first : List ℕ) (c : Console S) (texts : List (List ℕ))
      → rooms.copy_room ≡ true
      → parses debug str_n_cpy_s rooms ≡ false
      → (length (drop_escapes false line) == 0) ≡ false
      → c.parameters.argv ≡ some texts
      → run_internal_command debug str_n_cpy_s rooms run line first c
        ≡ some (
          error out_of_resources,
          none,
          record c {
            parameters = record c.parameters { dangling = true };
            freed = take c.parameters.argc texts ∷ c.freed;
          },
        )
  unfolding run_internal_command update_argc_argv parse_command_line_to_args with_arguments keeps
      on_update on_handler restore_argc_argv
  run_internal_command-dangling line first c texts copy room some_line old =
      simp
        (
          copy,
          some_line,
          room,
          given_up_lem c.parameters texts old,
          put_back_lem c.parameters texts old,
        )
        refl

  module _
      -- StrnCpyS copies what fits.
      (copies : (max : ℕ) (s : List ℕ) (n : ℕ) (old : List ℕ)
        → n < max
        → n ≤ length s
        → str_n_cpy_s max s n old ≡ take n s) where
    -- A command line that runs while Argv is not NULL, as one that a handler runs does, with room
    -- for all but NewCommandLine and TempParameter of ParseCommandLineToArgs: for parameters that
    -- are not empty, written as one line with a space between them and an escape character before
    -- each space, quote and escape character, such that the line has no `#` and neither starts nor
    -- ends with a space or a tab, RunShellCommand ends with EFI_OUT_OF_RESOURCES without a handler
    -- run; it frees the array of Argv from before, and Argv still points to it. That StrnCpyS copies
    -- what fits is a hypothesis.
    pub run_shell_command-dangling :
        (w : Word) (ws : List Word) (c : Console S) (texts : List (List ℕ))
        → StartsSolid (joined w ws)
        → EndsSolid (joined w ws)
        → Lacks 35 (joined w ws)
        → rooms.clean_room ≡ true
        → rooms.first_room ≡ true
        → rooms.copy_room ≡ true
        → parses debug str_n_cpy_s rooms ≡ false
        → c.parameters.argv ≡ some texts
        → run_shell_command debug str_n_cpy_s rooms run (joined w ws) c
          ≡ some (
            error out_of_resources,
            none,
            record c {
              parameters = record c.parameters { dangling = true };
              freed = take c.parameters.argc texts ∷ c.freed;
            },
          )
    unfolding run_shell_command run_clean run_internal_command update_argc_argv on_update on_handler
        restore_argc_argv
    run_shell_command-dangling w ws c texts starts ends lacks clean first copy room old =
        let line = joined w ws in
        let some_line : (length line == 0) ≡ false = not_zero (length line) (behind_room 0 w ws) in
        rw
          (
            some_line,
            clean,
            trim_spaces_self line starts ends,
            cut_comment-Lacks line lacks,
            trim_spaces_self line starts ends,
            some_line,
            first,
            next_word debug str_n_cpy_s copies true (length line + 1) 0 w ws [] (omega arith),
          )
          (run_internal_command-dangling line (word_text w) c texts copy room
            (rw (drop_escapes-Lacks line lacks) some_line) old)
