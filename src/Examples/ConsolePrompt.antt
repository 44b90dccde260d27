-- ===== src/Examples/ConsolePrompt.antt =====
-- A command line that is typed at the prompt, for Drivers/Dxe/UefiConsole/UefiConsole.c.
use uefi_toolkit_pkg.Base.{
  ℕ, ◌+◌, ◌≡◌, refl, true, false, Bool, List, [], ◌∷◌, ◌++◌, Lacks, Option, none, some, take,
  Status, success, error, out_of_resources, arith, inr,
}
use uefi_toolkit_pkg.UefiConsole.CommandLine.{is_space}
use uefi_toolkit_pkg.UefiConsole.CommandLine.Trimmed.{EndsSolid, ends_in}
use uefi_toolkit_pkg.UefiConsole.CommandLine.Next.Escaped.{is_special, escape}
use uefi_toolkit_pkg.UefiConsole.CommandLine.Arguments.Joined.{Word, further, joined}
use uefi_toolkit_pkg.UefiConsole.InRead.{add_line_to_command_history, max_line}
use uefi_toolkit_pkg.UefiConsole.Run.{
  Console, Rooms, register_exit, put_back, restore_argc_argv, on_handler, status_of, command_status,
  given_up, run_shell_command,
}
use uefi_toolkit_pkg.UefiConsole.Run.Dangling.{run_shell_command-dangling}
use uefi_toolkit_pkg.UefiConsole.Run.Handled.{HasRoom, handled}
use uefi_toolkit_pkg.UefiConsole.Run.Restored.{Restores, run_shell_command-Restores}
use uefi_toolkit_pkg.UefiConsole.Prompt.{Terminal, prompted, do_console_prompt}
use uefi_toolkit_pkg.UefiConsole.Prompt.Typed.{strokes, enter, do_console_prompt-typed}

abbrev copy : ℕ → List ℕ → ℕ → List ℕ → List ℕ
copy max s n old = take n s

abbrev rooms : Rooms
rooms = record {
  clean_room = true;
  first_room = true;
  copy_room = true;
  arguments = record { line_room = true; temp_room = true; array_room = true; room = λ n. true };
}

all_room : HasRoom rooms
all_room = record {
  clean = refl;
  first = refl;
  copy = refl;
  line = refl;
  temp = refl;
  array = refl;
  each = λ j. refl;
}

abbrev console : Console ℕ
console = record {
  parameters = record { argv = none; argc = 0; dangling = false };
  exit_requested = false;
  exit_code = 0;
  freed = [];
  system = 0;
}

-- A handler that asks to exit and counts its parameters.
abbrev run : List ℕ → Console ℕ → Status × Option (Bool × ℕ) × Console ℕ
run name c =
    (success, some (true, 0), register_exit 7 (record c { system = c.system + c.parameters.argc }))

abbrev word : Word
word = (65, 32 ∷ 66 ∷ [])

abbrev others : List Word
others = (67, []) ∷ []

abbrev terminal : Terminal
terminal = record {
  line_room = true;
  node_room = true;
  copy_room = true;
  shown = success;
  columns = 80;
  rows = 25;
  start_column = 12;
}

line_text : joined word others ≡ 65 ∷ 94 ∷ 32 ∷ 66 ∷ 32 ∷ 67 ∷ []
unfolding escape is_special further
line_text = refl

line_ends : EndsSolid (joined word others)
unfolding escape is_special further is_space
line_ends = ends_in (65 ∷ 94 ∷ 32 ∷ 66 ∷ 32 ∷ []) 67 refl

line_starts : is_space 65 ≡ false
unfolding is_space
line_starts = refl

line-Lacks : Lacks 35 (65 ∷ 94 ∷ 32 ∷ 66 ∷ 32 ∷ 67 ∷ [])
line-Lacks = omega arith

screen_size : max_line 4000 80 25 12 ≡ 1908
unfolding max_line
screen_size = refl

do_console_prompt-typed_example :
    do_console_prompt
      (run_shell_command true copy rooms run)
      terminal
      []
      (strokes (joined word others) ++ enter ∷ [])
      console
    ≡ some (
        prompted
          (handled true copy
            (λ max s n old fits room. refl)
            rooms
            all_room
            run
            word
            others
            console).0
          (add_line_to_command_history true true [] (joined word others))
          (handled true copy
            (λ max s n old fits room. refl)
            rooms
            all_room
            run
            word
            others
            console).2)
do_console_prompt-typed_example =
    do_console_prompt-typed true copy (λ max s n old fits room. refl) rooms all_room run terminal []
      word others console [] refl refl tt (omega arith) (rw (line_text, screen_size) (omega arith))
      (rw line_text line_starts) line_ends (rw line_text line-Lacks) (rw line_text (omega arith))

-- A console in which a handler runs, with the parameters of its command line.
abbrev within_handler : Console ℕ
within_handler = record console {
  parameters = record { argv = some ((69 ∷ []) ∷ []); argc = 1; dangling = false };
}

-- A line whose quote is not closed.
run_shell_command-Restores_example :
    Restores within_handler.parameters
      (run_shell_command true copy rooms run (65 ∷ 34 ∷ []) within_handler)
run_shell_command-Restores_example =
    run_shell_command-Restores true copy rooms run (65 ∷ 34 ∷ []) within_handler (inr refl)

-- The pool has no room for NewCommandLine.
abbrev no_line : Rooms
no_line = record rooms {
  arguments = record { line_room = false; temp_room = true; array_room = true; room = λ n. true };
}

run_shell_command-dangling_example :
    run_shell_command true copy no_line run (joined word others) within_handler
    ≡ some (
      error out_of_resources,
      none,
      record within_handler {
        parameters = record { argv = some ((69 ∷ []) ∷ []); argc = 1; dangling = true };
        freed = ((69 ∷ []) ∷ []) ∷ [];
      },
    )
run_shell_command-dangling_example =
    run_shell_command-dangling true copy no_line run (λ max s n old fits room. refl) word others
      within_handler ((69 ∷ []) ∷ []) (rw line_text line_starts) line_ends (rw line_text line-Lacks)
      refl refl refl refl refl

-- The handler ran with two parameters, and its exit code is kept.
exit_run :
    let c =
      (handled true copy
        (λ max s n old fits room. refl)
        rooms
        all_room
        run
        word
        others
        console).2 in
    (c.system ≡ 2) × (c.exit_code ≡ 7)
unfolding restore_argc_argv put_back on_handler register_exit status_of command_status given_up
exit_run = (refl, refl)
