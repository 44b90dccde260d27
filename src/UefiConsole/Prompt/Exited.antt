-- ===== src/UefiConsole/Prompt/Exited.antt =====
-- The command exit, typed at the prompt of Drivers/Dxe/UefiConsole/UefiConsole.c.
use uefi_toolkit_pkg.Base.{
  ℕ, ◌^◌, ◌≤◌, ◌<◌, ◌≡◌, ◌∙◌, refl, ap, Bool, true, false, List, [], ◌∷◌, ◌++◌, All, Lacks, map,
  Option, some, and_then, length, take, ltb, if_true, if_false, Status, success, efi_error, arith,
}
use uefi_toolkit_pkg.UefiConsole.Commands.{
  Sign, Command, Registry, find_command, on_found, run_command_handler,
}
use uefi_toolkit_pkg.UefiConsole.Numbers.Spelling.{Spelled}
use uefi_toolkit_pkg.UefiConsole.CommandLine.Trimmed.{StartsSolid, EndsSolid}
use uefi_toolkit_pkg.UefiConsole.CommandLine.Arguments.Joined.{Word, word_text, joined, length-map}
use uefi_toolkit_pkg.UefiConsole.Package.{Compare, PackagePool}
use uefi_toolkit_pkg.UefiConsole.Package.Pieces.{Plain}
use uefi_toolkit_pkg.UefiConsole.InputLine.{KeyStroke}
use uefi_toolkit_pkg.UefiConsole.InRead.{add_line_to_command_history, is_not_ready}
use uefi_toolkit_pkg.UefiConsole.Monitor.{is_console_request}
use uefi_toolkit_pkg.UefiConsole.Run.{
  Console, Ran, Rooms, register_exit, put_back, restore_argc_argv, on_handler, given_up,
  run_shell_command,
}
use uefi_toolkit_pkg.UefiConsole.Run.Handled.{HasRoom, handled, parameters_of}
use uefi_toolkit_pkg.UefiConsole.Exit.{shell_command_run_exit, handle_exit}
use uefi_toolkit_pkg.UefiConsole.Exit.Coded.{shell_command_run_exit-Spelled}
use uefi_toolkit_pkg.UefiConsole.Prompt.{
  Terminal, console_left, after_prompt, prompt_loop, notification_function,
}
use uefi_toolkit_pkg.UefiConsole.Prompt.Typed.{
  strokes, enter, Printable, buffer_bytes, line_room_of, do_console_prompt-typed,
}

-- A line that can be typed at a terminal.
pub record Typeable (t : Terminal) (line : List ℕ) : Type 0 where
  pub room : t.line_room ≡ true
  pub shown : efi_error t.shown ≡ false
  pub large : 4 ≤ buffer_bytes t
  pub fits : length line < line_room_of t
  pub starts : StartsSolid line
  pub ends : EndsSolid line
  pub lacks : Lacks 35 line
  pub typed : All Printable line

module _ (debug : Bool) (str_n_cpy_s : ℕ → List ℕ → ℕ → List ℕ → List ℕ)
    -- StrnCpyS copies what fits.
    (copies : (max : ℕ) (s : List ℕ) (n : ℕ) (old : List ℕ)
      → n < max
      → n ≤ length s
      → str_n_cpy_s max s n old ≡ take n s)
    (rooms : Rooms) (has_room : HasRoom rooms) {S : Type 0}
    (run : List ℕ → Console S → Status × Option (Bool × ℕ) × Console S) where
  abbrev run_line : List ℕ → Console S → Option (Ran S)
  run_line = run_shell_command debug str_n_cpy_s rooms run

  prompt_loop-typed :
      (t : Terminal) (more : List KeyStroke) (prompts : List (Terminal × List KeyStroke))
      (history : List (List ℕ)) (w : Word) (ws : List Word) (c : Console S)
      → All (Lacks 0) history
      → Typeable t (joined w ws)
      → (handled debug str_n_cpy_s copies rooms has_room run w ws c).2.exit_requested ≡ true
      → prompt_loop run_line ((t, strokes (joined w ws) ++ enter ∷ more) ∷ prompts) history c
        ≡ some (
            console_left
              (add_line_to_command_history t.node_room t.copy_room history (joined w ws))
              (handled debug str_n_cpy_s copies rooms has_room run w ws c).2)
  unfolding prompt_loop
  prompt_loop-typed t more prompts history w ws c texts line exits =
      ap (λ o. and_then o (after_prompt run_line (prompt_loop run_line prompts)))
        (do_console_prompt-typed debug str_n_cpy_s copies rooms has_room run t history w ws c more
          line.room line.shown texts line.large line.fits line.starts line.ends line.lacks
          line.typed)
      ∙ if_true _ _ _ exits

take_words : (ws : List Word) → take (length ws) (map word_text ws) ≡ map word_text ws
take_words [] = refl
take_words (w ∷ ws) = ap (λ l. word_text w ∷ l) (take_words ws)

-- The command exit with a number.
module _ {S : Type 0} (coll : List ℕ → List ℕ → Sign)
    (swap : List (Command (Console S)) → ℕ → ℕ → List (Command (Console S)) × ℕ)
    (has_text : List ℕ → List ℕ → Bool) (held : ℕ) (compare : Compare) (pool : PackagePool) where
  handled_exit :
      (c : Console S) (o : ℕ × Console S)
      → shell_command_run_exit held compare pool c ≡ some o
      → handle_exit held compare pool c ≡ o
  unfolding handle_exit
  handled_exit c o h = rw (h, handle_exit) refl

  run_found :
      (r : Registry (Console S)) (command : Command (Console S)) (name : List ℕ) (c : Console S)
      (o : ℕ × Console S)
      → find_command coll swap has_text r.commands name ≡ some command
      → command.handler c ≡ o
      → run_command_handler coll swap has_text r name c
        ≡ (success, some (command.can_affect_le, o.0), o.1)
  unfolding run_command_handler on_found
  run_found r command name c o found ran =
      ap (λ x. on_found coll swap has_text x c) found
      ∙ ap (λ (x : ℕ × Console S). (success, some (command.can_affect_le, x.0), x.1)) ran

  module _ (debug : Bool) (str_n_cpy_s : ℕ → List ℕ → ℕ → List ℕ → List ℕ)
      -- StrnCpyS copies what fits.
      (copies : (max : ℕ) (s : List ℕ) (n : ℕ) (old : List ℕ)
        → n < max
        → n ≤ length s
        → str_n_cpy_s max s n old ≡ take n s)
      (rooms : Rooms) (has_room : HasRoom rooms) (r : Registry (Console S)) where
    abbrev pub run_named : List ℕ → Console S → Status × Option (Bool × ℕ) × Console S
    run_named = run_command_handler coll swap has_text r

    -- The console behind the command, with the parameters from before.
    abbrev pub exited : ℕ → Word → List Word → Console S → Console S
    exited v w ws c = record c {
      exit_requested = true;
      exit_code = v;
      freed = map word_text (w ∷ ws) ∷ c.freed;
    }

    handled-exited :
        (command : Command (Console S)) (w n : Word) (more : List Word) (v : ℕ) (c : Console S)
        → find_command coll swap has_text r.commands (word_text w) ≡ some command
        → command.handler ≡ handle_exit held compare pool
        → pool.head_room ≡ true
        → ((i : ℕ) → pool.node_room i ≡ true)
        → ((i : ℕ) → pool.text_room i ≡ true)
        → All (Plain compare pool [] false false) (map word_text (w ∷ n ∷ more))
        → Spelled false (word_text n) v
        → v < 2 ^ 64
        → (handled debug str_n_cpy_s copies rooms has_room run_named w
            (n ∷ more)
            (record c { exit_requested = false })).2
          ≡ exited v w (n ∷ more) c
    unfolding restore_argc_argv put_back on_handler register_exit given_up
    handled-exited command w n more v c found is_exit head node_room text_room plain spelled small =
        let started : Console S = record c {
          exit_requested = false;
          parameters = parameters_of w (n ∷ more);
        } in
        let fits : ltb v (2 ^ 64) ≡ true = ground (arith, small) in
        let coded =
          shell_command_run_exit-Spelled held compare pool started (word_text w) (word_text n)
            (map word_text more) v head node_room text_room (rw (length-map word_text more) refl)
            plain spelled
          ∙ ap some (if_true _ _ _ fits) in
        let o : ℕ × Console S = (0, register_exit v started) in
        let ran = run_found r command (word_text w) started o found (
          ap (λ (f : Console S → ℕ × Console S). f started) is_exit
          ∙ handled_exit started o coded) in
        ap
          (λ x.
            (restore_argc_argv debug str_n_cpy_s rooms run_named false c.parameters
              (on_handler debug str_n_cpy_s rooms run_named x)).2)
          ran
        ∙ rw (take_words more) refl

    -- From the keys to the exit code: when the registry's command of the name that is typed is the
    -- command exit, and behind the name stands a number of 64 bits, as one line that can be typed,
    -- none of its parameters a flag: if the key is the one that asks for the console, the timer
    -- says that it is not too early and the pool has room, NotificationFunction leaves the prompts
    -- after this line, whatever other lines were to come; the exit code is the number, the line is
    -- in the history, the array of the parameters is freed, and the shell parameters are those
    -- from before. That StrnCpyS copies what fits is a hypothesis; no line of the history has a NUL
    -- in it.
    pub notification_function-exit :
        (command : Command (Console S)) (w n : Word) (more : List Word) (v : ℕ) (c : Console S)
        (unicode_char key_shift_state : ℕ) (checked : Status) (t : Terminal) (keys : List KeyStroke)
        (prompts : List (Terminal × List KeyStroke)) (history : List (List ℕ))
        → find_command coll swap has_text r.commands (word_text w) ≡ some command
        → command.handler ≡ handle_exit held compare pool
        → pool.head_room ≡ true
        → ((i : ℕ) → pool.node_room i ≡ true)
        → ((i : ℕ) → pool.text_room i ≡ true)
        → All (Plain compare pool [] false false) (map word_text (w ∷ n ∷ more))
        → Spelled false (word_text n) v
        → v < 2 ^ 64
        → Typeable t (joined w (n ∷ more))
        → All (Lacks 0) history
        → is_console_request unicode_char key_shift_state ≡ true
        → is_not_ready checked ≡ false
        → notification_function
            (run_shell_command debug str_n_cpy_s rooms run_named)
            unicode_char
            key_shift_state
            checked
            ((t, strokes (joined w (n ∷ more)) ++ enter ∷ keys) ∷ prompts)
            history
            c
          ≡ some (
              console_left
                (add_line_to_command_history t.node_room t.copy_room history (joined w (n ∷ more)))
                (exited v w (n ∷ more) c))
    unfolding notification_function
    notification_function-exit command w n more v c unicode_char key_shift_state checked t keys
          prompts history found is_exit head node_room text_room plain spelled small line texts
          request due =
        let fresh : Console S = record c { exit_requested = false } in
        let left =
          handled-exited command w n more v c found is_exit head node_room text_room plain spelled
            small in
        if_true _ _ _ request
        ∙ if_false _ _ _ due
        ∙ prompt_loop-typed debug str_n_cpy_s copies rooms has_room run_named t keys prompts history
            w (n ∷ more) fresh texts line (ap (λ (d : Console S). d.exit_requested) left)
        ∙ ap
            (λ d. some (
              console_left
                (add_line_to_command_history t.node_room t.copy_room history (joined w (n ∷ more)))
                d))
            left
