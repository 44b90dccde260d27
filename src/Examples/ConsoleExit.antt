-- ===== src/Examples/ConsoleExit.antt =====
-- The command exit, typed at the prompt of Drivers/Dxe/UefiConsole/UefiConsole.c.
use uefi_toolkit_pkg.Base.{
  ℕ, ◌≡◌, refl, Bool, true, false, List, [], ◌∷◌, ◌++◌, none, some, codes, same_text, take, length,
  if◌then◌else◌, success, arith,
}
use uefi_toolkit_pkg.UefiConsole.Commands.{Sign, above, same, Command, Registry, find_command}
use uefi_toolkit_pkg.UefiConsole.Numbers.Spelling.{decimal}
use uefi_toolkit_pkg.UefiConsole.CommandLine.{is_space}
use uefi_toolkit_pkg.UefiConsole.CommandLine.Trimmed.{EndsSolid, ends_in}
use uefi_toolkit_pkg.UefiConsole.CommandLine.Next.Escaped.{is_special, escape}
use uefi_toolkit_pkg.UefiConsole.CommandLine.Arguments.Joined.{Word, further, joined}
use uefi_toolkit_pkg.UefiConsole.Package.{Compare, PackagePool, on_items, is_on_check_list, is_flag}
use uefi_toolkit_pkg.UefiConsole.Package.Pieces.{Plain}
use uefi_toolkit_pkg.UefiConsole.InRead.{add_line_to_command_history, max_line}
use uefi_toolkit_pkg.UefiConsole.Monitor.{is_console_request}
use uefi_toolkit_pkg.UefiConsole.Run.{Console, Rooms, run_shell_command}
use uefi_toolkit_pkg.UefiConsole.Run.Handled.{HasRoom}
use uefi_toolkit_pkg.UefiConsole.Exit.{handle_exit}
use uefi_toolkit_pkg.UefiConsole.Prompt.{Terminal, console_left, notification_function}
use uefi_toolkit_pkg.UefiConsole.Prompt.Typed.{strokes, enter}
use uefi_toolkit_pkg.UefiConsole.Prompt.Exited.{
  Typeable, run_named, exited, notification_function-exit,
}

abbrev copy : ℕ → List ℕ → ℕ → List ℕ → List ℕ
copy max s n old = take n s

abbrev rooms : Rooms
rooms = record {
  clean_room = true;
  first_room = true;
  copy_room = true;
  arguments = record { line_room = true; temp_room = true; array_room = true; room = λ n. true };
}

all_room : HasRoom rooms
all_room = record {
  clean = refl;
  first = refl;
  copy = refl;
  line = refl;
  temp = refl;
  array = refl;
  each = λ j. refl;
}

abbrev compare : Compare
compare = record {
  equal = same_text;
  equal_no_case = same_text;
  begins = λ a b. same_text (take (length b) a) b;
}

abbrev pool : PackagePool
pool = record {
  head_room = true;
  node_room = λ i. true;
  text_room = λ i. true;
  temp_room = λ name. true;
}

abbrev console : Console ℕ
console = record {
  parameters = record { argv = none; argc = 0; dangling = false };
  exit_requested = false;
  exit_code = 0;
  freed = [];
  system = 0;
}

abbrev exit_command : Command (Console ℕ)
exit_command = record {
  name = codes "exit";
  handler = handle_exit 0 compare pool;
  can_affect_le = true;
  man_file_name = 0;
  hii_handle = 0;
  man_format_help = 0;
}

abbrev registry : Registry (Console ℕ)
registry = record {
  commands = exit_command ∷ [];
  profiles = record { text = none; size = 0 };
  blocks = 2;
}

abbrev coll : List ℕ → List ℕ → Sign
coll a b = if same_text a b then same else above

abbrev swap : List (Command (Console ℕ)) → ℕ → ℕ → List (Command (Console ℕ)) × ℕ
swap nodes a b = (nodes, a)

abbrev has_text : List ℕ → List ℕ → Bool
has_text s t = true

abbrev name : Word
name = (101, codes "xit")

abbrev twelve : Word
twelve = (49, codes "2")

abbrev terminal : Terminal
terminal = record {
  line_room = true;
  node_room = true;
  copy_room = true;
  shown = success;
  columns = 80;
  rows = 25;
  start_column = 12;
}

line_text : joined name (twelve ∷ []) ≡ codes "exit 12"
unfolding escape is_special further
line_text = refl

line_ends : EndsSolid (joined name (twelve ∷ []))
unfolding escape is_special further is_space
line_ends = ends_in (codes "exit 1") 50 refl

line_starts : is_space 101 ≡ false
unfolding is_space
line_starts = refl

screen_size : max_line 4000 80 25 12 ≡ 1908
unfolding max_line
screen_size = refl

line-Typeable : Typeable terminal (joined name (twelve ∷ []))
line-Typeable = record {
  room = refl;
  shown = refl;
  large = omega arith;
  fits = rw (line_text, screen_size) (omega arith);
  starts = rw line_text line_starts;
  ends = line_ends;
  lacks = rw line_text (omega arith);
  typed = rw line_text (omega arith);
}

exit-Plain : Plain compare pool [] false false (codes "exit")
unfolding is_on_check_list on_items same_text is_flag
exit-Plain = (refl, refl)

twelve-Plain : Plain compare pool [] false false (codes "12")
unfolding is_on_check_list on_items same_text is_flag
twelve-Plain = (refl, refl)

exit_found : find_command coll swap has_text (exit_command ∷ []) (codes "exit") ≡ some exit_command
unfolding find_command same_text
exit_found = refl

is_request : is_console_request 18 0 ≡ true
unfolding is_console_request
is_request = refl

notification_function-exit_example :
    notification_function
      (run_shell_command true copy rooms (
        run_named coll swap has_text 0 compare pool true copy
          (λ max s n old fits room. refl)
          rooms
          all_room
          registry))
      18
      0
      success
      ((terminal, strokes (joined name (twelve ∷ [])) ++ enter ∷ []) ∷ [])
      []
      console
    ≡ some (
        console_left (add_line_to_command_history true true [] (joined name (twelve ∷ []))) (
          exited coll swap has_text 0 compare pool true copy
            (λ max s n old fits room. refl)
            rooms
            all_room
            registry
            12
            name
            (twelve ∷ [])
            console))
notification_function-exit_example =
    notification_function-exit coll swap has_text 0 compare pool true copy
      (λ max s n old fits room. refl) rooms all_room registry exit_command name twelve [] 12 console
      18 0 success terminal [] [] [] exit_found refl refl (λ i. refl) (λ i. refl)
      (exit-Plain, (twelve-Plain, tt)) (decimal 49 (50 ∷ []) (omega arith)) (omega arith)
      line-Typeable tt is_request refl
