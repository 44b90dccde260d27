-- ===== src/UefiConsole/InRead.antt =====
-- UefiConsoleInRead and AddLineToCommandHistory of Drivers/Dxe/UefiConsole/UefiConsole.c. The keys
-- are the strokes that ReadKeyStroke yields, one after another; `shown` is the status that is left
-- when the line was shown to its end. The pool and the size of the screen are parameters.
pub mod Reads
pub mod History
use uefi_toolkit_pkg.Base.{
  ℕ, zero, suc, ◌+◌, ◌-◌, ◌*◌, ◌/◌, ◌%◌, ◌^◌, Bool, true, false, ◌&&◌, List, [], ◌∷◌, ◌++◌, Option,
  none, some, and_then, length, drop, c_string, ltb, ◌==◌, if◌then◌else◌, Status, success, warning,
  error, buffer_too_small, not_ready,
}
use uefi_toolkit_pkg.UefiConsole.InputLine.{Editor, InputKey, KeyStroke, stroke, fails, edit}
use uefi_toolkit_pkg.UefiConsole.InputLine.Buffer.{nuls}

abbrev pub max_history_cmd_count : ℕ
max_history_cmd_count = 0x20

-- AddLineToCommandHistory, with the room for its node and for the copy of the line.
unfoldable pub add_line_to_command_history : Bool → Bool → List (List ℕ) → List ℕ → List (List ℕ)
add_line_to_command_history node_room line_room history line =
    if node_room && line_room
    then if ltb (length history) max_history_cmd_count
      then history ++ line ∷ []
      else drop 1 history ++ line ∷ []
    else history

-- How the loop ends: it waits for a key, or it stops with a status.
pub data LoopEnd : Type 0 where
  waits : Editor → LoopEnd
  stops : Status → Editor → LoopEnd

abbrev pub is_not_ready : Status → Bool
is_not_ready (error not_ready) = true
is_not_ready _ = false

module _ (max_str : ℕ) (history : List (List ℕ)) (shown : Status) where
  -- The do-while loop.
  unfoldable pub read_loop : Editor → List KeyStroke → Option LoopEnd
  read_loop e [] = some (waits e)
  read_loop e (fails status ∷ keys) =
      let rest = read_loop e keys in
      if is_not_ready status
      then rest
      else some (stops status (record e { text = nuls max_str; string_len = 0 }))
  read_loop e (stroke key ∷ keys) =
      let rest = and_then (edit max_str history e key) (λ e'. read_loop e' keys) in
      if key.unicode_char == 0x0d then some (stops shown e) else rest

-- The editor before the first key.
abbrev pub empty_editor : ℕ → Editor
empty_editor max_str = record {
  text = nuls max_str;
  string_len = 0;
  cur_pos = 0;
  update = some 0;
  delete = 0;
  line_pos = 0;
  new_pos = 0;
}

-- MaxStr, on UINTN.
unfoldable pub max_line : ℕ → ℕ → ℕ → ℕ → ℕ
max_line buffer_size columns rows start_column =
    let screen : ℕ = (columns * ((rows + 2 ^ 64 - 1) % 2 ^ 64) + 2 ^ 64 - start_column) % 2 ^ 64 in
    if ltb (buffer_size / 2) screen then buffer_size / 2 else screen

-- What UefiConsoleInRead leaves: it waits, or its status, *BufferSize, the buffer and the history.
pub data InRead : Type 0 where
  in_wait : InRead
  returns : Status → ℕ → List ℕ → List (List ℕ) → InRead

abbrev pub on_loop : (List (List ℕ) → List ℕ → List (List ℕ)) → List (List ℕ) → LoopEnd → InRead
on_loop add history (waits e) = in_wait
on_loop add history (stops status e) =
    returns status (e.string_len * 2) e.text
      (if length (c_string e.text) == 0 then history else add history (c_string e.text))

module _ (node_room line_room : Bool) (shown : Status) (columns rows start_column : ℕ) where
  unfoldable pub uefi_console_in_read : ℕ → List ℕ → List (List ℕ) → List KeyStroke → Option InRead
  uefi_console_in_read buffer_size buffer history keys =
      let max_str : ℕ = max_line buffer_size columns rows start_column in
      let read : Option InRead =
        and_then (read_loop max_str history shown (empty_editor max_str) keys)
          (λ end. some (on_loop (add_line_to_command_history node_room line_room) history end)) in
      if ltb buffer_size 4 then some (returns (error buffer_too_small) 4 buffer history) else read
