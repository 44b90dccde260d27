-- ===== src/UefiConsole/Prompt.antt =====
-- DoConsolePrompt and NotificationFunction of Drivers/Dxe/UefiConsole/UefiConsole.c: the prompt, the
-- line that is read behind it and its command, until a command asks to exit. The keys of each prompt
-- are given with it; the screen, the timer and what runs a command line are parameters.
pub mod Exited
pub mod Left
pub mod Typed
use uefi_toolkit_pkg.Base.{
  ℕ, ◌*◌, ◌/◌, ◌%◌, ◌^◌, Bool, true, false, List, [], ◌∷◌, Option, none, some, and_then, set,
  c_string, replicate, ◌==◌, if◌then◌else◌, Status, success, warning, error, out_of_resources,
  efi_error,
}
use uefi_toolkit_pkg.UefiConsole.InputLine.{KeyStroke}
use uefi_toolkit_pkg.UefiConsole.InRead.{
  InRead, in_wait, returns, is_not_ready, uefi_console_in_read,
}
use uefi_toolkit_pkg.UefiConsole.Monitor.{is_console_request}
use uefi_toolkit_pkg.UefiConsole.Run.{Console, Ran}

-- What a prompt finds: the answers of the pool for CmdLine and for the history, the status behind
-- the line when it was shown, the size of the screen and where the cursor stands.
pub record Terminal : Type 0 where
  pub line_room : Bool
  pub node_room : Bool
  pub copy_room : Bool
  pub shown : Status
  pub columns : ℕ
  pub rows : ℕ
  pub start_column : ℕ

-- A prompt waits for a key, or it is done, with its status, the history and the console.
pub data Prompted (S : Type 0) : Type 0 where
  waiting : Prompted S
  prompted : Status → List (List ℕ) → Console S → Prompted S

-- A key was not for the console, or came too early; or the prompts wait for a key, or are left.
pub data Notified (S : Type 0) : Type 0 where
  other_key : Notified S
  too_early : Notified S
  still_prompting : Notified S
  console_left : List (List ℕ) → Console S → Notified S

module _ {S : Type 0} (run_command : List ℕ → Console S → Option (Ran S)) where
  abbrev pub on_read : Console S → InRead → Option (Prompted S)
  on_read c in_wait = some waiting
  on_read c (returns status size buffer history) =
      let ran : Option (Prompted S) =
        and_then (run_command (c_string (set buffer (size / 2) 0)) c)
          (λ r. some (prompted r.0 history r.2)) in
      if efi_error status then some (prompted status history c) else ran

  unfoldable pub do_console_prompt :
      Terminal → List (List ℕ) → List KeyStroke → Console S → Option (Prompted S)
  do_console_prompt t history keys c =
      let buffer_size : ℕ = t.columns * t.rows * 2 % 2 ^ 64 in
      let read : Option (Prompted S) =
        and_then
          (uefi_console_in_read t.node_room t.copy_room t.shown t.columns t.rows t.start_column
            buffer_size (replicate (buffer_size / 2) 0) history keys)
          (on_read c) in
      if t.line_room then read else some (prompted (error out_of_resources) history c)

  -- What follows a prompt: another one, unless an exit was requested.
  abbrev pub after_prompt :
      (List (List ℕ) → Console S → Option (Notified S)) → Prompted S → Option (Notified S)
  after_prompt next waiting = some still_prompting
  after_prompt next (prompted status history c) =
      let again : Option (Notified S) = next history c in
      if c.exit_requested then some (console_left history c) else again

  -- The do-while loop; each prompt has its terminal and its keys.
  unfoldable pub prompt_loop :
      List (Terminal × List KeyStroke) → List (List ℕ) → Console S → Option (Notified S)
  prompt_loop [] history c = some still_prompting
  prompt_loop ((t, keys) ∷ prompts) history c =
      and_then (do_console_prompt t history keys c) (after_prompt (prompt_loop prompts))

  -- `checked` is the status of CheckEvent.
  unfoldable pub notification_function :
      ℕ
      → ℕ
      → Status
      → List (Terminal × List KeyStroke)
      → List (List ℕ)
      → Console S
      → Option (Notified S)
  notification_function unicode_char key_shift_state checked prompts history c =
      let prompting : Option (Notified S) =
        prompt_loop prompts history (record c { exit_requested = false }) in
      if is_console_request unicode_char key_shift_state
      then if is_not_ready checked then some too_early else prompting
      else some other_key
