-- ===== src/UefiConsole/InputLine.antt =====
-- The input line and its history, UefiConsoleInRead and AddLineToCommandHistory of
-- Drivers/Dxe/UefiConsole/UefiConsole.c. Where the cursor stands on the screen is left out: nothing
-- of the text depends on it. An access outside the buffer ends the model. The history is a circular
-- list: its head is 0, its lines are 1, 2, ... in their order.
pub mod Buffer
pub mod Edited
use uefi_toolkit_pkg.Base.{
  ℕ, zero, suc, ◌+◌, ◌-◌, ◌*◌, ◌/◌, ◌%◌, ◌^◌, Bool, true, false, ◌&&◌, ◌||◌, not, List, [], ◌∷◌,
  ◌++◌, Option, none, some, and_then, length, get_or, set, take, drop, replicate, ltb, leb, ◌==◌,
  if◌then◌else◌, Status, success, error, buffer_too_small, not_ready,
}

-- StrLen: none if there is no NUL in the buffer.
unfoldable pub str_len : List ℕ → Option ℕ
str_len [] = none
str_len (c ∷ s) = if c == 0 then some 0 else and_then (str_len s) (λ n. some (suc n))

-- CopyMem of `count` characters to place `pos` from the place behind it, and SetMem with NULs.
unfoldable pub copy_down : List ℕ → ℕ → ℕ → Option (List ℕ)
copy_down s pos count =
    if count == 0
    then some s
    else if ltb (pos + count) (length s)
    then some (take pos s ++ take count (drop (suc pos) s) ++ drop (pos + count) s)
    else none

unfoldable pub set_nul : List ℕ → ℕ → ℕ → Option (List ℕ)
set_nul s pos count =
    if leb (pos + count) (length s)
    then some (take pos s ++ replicate count 0 ++ drop (pos + count) s)
    else none

unfoldable pub put_char : List ℕ → ℕ → ℕ → Option (List ℕ)
put_char s pos c = if ltb pos (length s) then some (set s pos c) else none

-- CurrentString, StringLen, StringCurPos, Update, Delete, LinePos and NewPos.
pub record Editor : Type 0 where
  pub text : List ℕ
  pub string_len : ℕ
  pub cur_pos : ℕ
  pub update : Option ℕ
  pub delete : ℕ
  pub line_pos : ℕ
  pub new_pos : ℕ

-- EFI_INPUT_KEY, and what ReadKeyStroke returns.
pub record InputKey : Type 0 where
  pub unicode_char : ℕ
  pub scan_code : ℕ

pub data KeyStroke : Type 0 where
  stroke : InputKey → KeyStroke
  fails : Status → KeyStroke

-- GetPreviousNode and GetNextNode on a circular list of `n` lines.
abbrev pub previous_node : ℕ → ℕ → ℕ
previous_node n i = if i == 0 then n else i - 1

abbrev pub next_node : ℕ → ℕ → ℕ
next_node n i = if i == n then 0 else i + 1

module _ (max_str : ℕ) (history : List (List ℕ)) where
  -- The characters behind `pos` move down by one.
  unfoldable pub delete_at : Editor → ℕ → Option Editor
  unfolding copy_down
  delete_at e pos =
      and_then (copy_down e.text pos (e.string_len - pos))
        (λ text. some (record e { text = text; cur_pos = pos; update = some pos; delete = 1 }))

  unfoldable pub backspace : Editor → Option Editor
  backspace e = let moved = delete_at e (e.cur_pos - 1) in if e.cur_pos == 0 then some e else moved

  unfoldable pub type_char : Editor → ℕ → Option Editor
  unfolding put_char
  type_char e c =
      let typed : Option Editor = and_then (put_char e.text e.cur_pos c) (λ text.
        some (record e { text = text; update = some e.cur_pos; cur_pos = e.cur_pos + 1 })) in
      if leb 32 c
      then if e.string_len == max_str - 1 && e.cur_pos == e.string_len then some e else typed
      else some e

  unfoldable pub scan : Editor → ℕ → Option Editor
  unfolding put_char
  scan e code =
      let deleted = delete_at e e.cur_pos in
      let lines = length history in
      let escaped : Option Editor =
        and_then (put_char e.text 0 0)
          (λ text. some (record e { text = text; update = some 0; delete = e.string_len })) in
      if code == 0x08
      then if e.string_len == 0 then some e else deleted
      else if code == 0x01
      then some (record e { new_pos = previous_node lines e.line_pos })
      else if code == 0x02
      then some (record e { new_pos = next_node lines e.line_pos })
      else if code == 0x04
      then some (record e { cur_pos = e.cur_pos - 1 })
      else if code == 0x03
      then some (if ltb e.cur_pos e.string_len then record e { cur_pos = e.cur_pos + 1 } else e)
      else if code == 0x05
      then some (record e { cur_pos = 0 })
      else if code == 0x06
      then some (record e { cur_pos = e.string_len })
      else if code == 0x17
      then escaped
      else some e

  -- The switch over the keys but the carriage return.
  unfoldable pub on_key : Editor → InputKey → Option Editor
  on_key e key =
      if key.unicode_char == 0x08
      then backspace e
      else if key.unicode_char == 0
      then scan e key.scan_code
      else type_char e key.unicode_char

  -- The line that NewPos stands for replaces the text.
  unfoldable pub recall : Editor → Option Editor
  unfolding put_char
  recall e =
      let line : List ℕ = get_or history (e.new_pos - 1) [] in
      let output_length : ℕ =
        if ltb (length line) (max_str - 1) then length line else max_str - 1 in
      let copied : Option (List ℕ) =
        if leb output_length (length e.text)
        then some (take output_length line ++ drop output_length e.text)
        else none in
      if e.new_pos == 0
      then some e
      else and_then copied (λ s. and_then (put_char s output_length 0) (λ text. some (record e {
        text = text;
        cur_pos = output_length;
        update = some 0;
        delete = if ltb output_length e.string_len then e.string_len - output_length else e.delete;
        line_pos = e.new_pos;
        new_pos = 0;
      })))

  -- What follows a change of the text: the length, the blanks behind it, the cursor.
  abbrev pub settle : Editor → ℕ → Option Editor
  settle e n = and_then (if e.delete == 0 then some e.text else set_nul e.text n e.delete) (λ text.
      some (record e {
        text = text;
        string_len = n;
        cur_pos = if ltb n e.cur_pos then n else e.cur_pos;
        update = none;
        delete = 0;
      }))

  -- By Update, which is none for -1.
  unfoldable pub refresh_at : Editor → Option ℕ → Option Editor
  unfolding str_len set_nul
  refresh_at e none = some e
  refresh_at e (some place) = and_then (str_len e.text) (λ n. settle e n)

  unfoldable pub refresh : Editor → Option Editor
  unfolding refresh_at
  refresh e = refresh_at e e.update

  -- One round of the loop.
  unfoldable pub edit : Editor → InputKey → Option Editor
  edit e key = and_then (on_key e key) (λ e'. and_then (recall e') refresh)
