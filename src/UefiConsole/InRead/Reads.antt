-- ===== src/UefiConsole/InRead/Reads.antt =====
-- UefiConsoleInRead reads the line that the keys edit.
use uefi_toolkit_pkg.Base.{
  ℕ, zero, suc, ◌-◌, ◌*◌, ◌≤◌, ◌<◌, ◌≡◌, ◌∙◌, refl, sym, ap, ap₂, Bool, false, List, [], ◌∷◌, ◌++◌,
  All, Lacks, Option, some, and_then, length, c_string, c_string-append, ltb, ◌==◌, if◌then◌else◌,
  Status, arith, Bool-cases, inl, inr,
}
use uefi_toolkit_pkg.UefiConsole.InputLine.{Editor, KeyStroke, stroke, fails}
use uefi_toolkit_pkg.UefiConsole.InputLine.Buffer.{nuls}
use uefi_toolkit_pkg.UefiConsole.InputLine.Edited.{Line, edit_line, Represents}
use uefi_toolkit_pkg.UefiConsole.InputLine.Edited.Keyboard.{edit_does}
use uefi_toolkit_pkg.UefiConsole.InRead.{
  add_line_to_command_history, LoopEnd, waits, stops, is_not_ready, read_loop, empty_editor,
  max_line, InRead, in_wait, returns, on_loop, uefi_console_in_read,
}

-- How the typing ends: more keys are waited for, or a status and the line.
pub data LineEnd : Type 0 where
  line_waits : Line → LineEnd
  line_stops : Status → Line → LineEnd

abbrev pub empty_line : Line
empty_line = record { text = []; pos = 0; line_pos = 0 }

module _ (max_str : ℕ) (history : List (List ℕ)) (shown : Status) where
  -- The keys edit a line up to the carriage return; an error but EFI_NOT_READY clears it.
  unfoldable pub line_loop : Line → List KeyStroke → LineEnd
  line_loop a [] = line_waits a
  line_loop a (fails status ∷ keys) =
      let rest = line_loop a keys in
      if is_not_ready status then rest else line_stops status (record a { text = [] })
  line_loop a (stroke key ∷ keys) =
      let rest = line_loop (edit_line max_str history a key) keys in
      if key.unicode_char == 0x0d then line_stops shown a else rest

  data Shows : LoopEnd → LineEnd → Type 0 where
    shows_waiting : (e : Editor) (a : Line) → Shows (waits e) (line_waits a)
    shows_stopped :
        (status : Status) (e : Editor) (a : Line)
        → e.text ≡ a.text ++ nuls (max_str - length a.text)
        → e.string_len ≡ length a.text
        → length a.text < max_str
        → Lacks 0 a.text
        → Shows (stops status e) (line_stops status a)

  record Read (o : Option LoopEnd) (l : LineEnd) : Type 0 where
    end : LoopEnd
    ends : o ≡ some end
    shows : Shows end l

  stopped :
      (status : Status) (e : Editor) (a : Line)
      → Represents max_str history e a
      → Shows (stops status e) (line_stops status a)
  stopped status e a r =
      let n : suc r.spare ≡ max_str - length a.text = omega (arith, r.room) in
      shows_stopped status e a (r.text ∙ ap (λ k. a.text ++ nuls k) n) r.len (omega (arith, r.room))
        r.lacks

  module _ (texts : All (Lacks 0) history) where
    read_loop-Read :
        (keys : List KeyStroke) (e : Editor) (a : Line)
        → Represents max_str history e a
        → 0 < max_str
        → Read (read_loop max_str history shown e keys) (line_loop a keys)
    unfolding read_loop line_loop
    read_loop-Read [] e a r room = record { end = waits e; ends = refl; shows = shows_waiting e a }
    read_loop-Read (fails status ∷ keys) e a r room = elim (Bool-cases (is_not_ready status)) [
      | inl again ↦ rw again (read_loop-Read keys e a r room)
      | inr failed ↦
          let cleared : Editor = record e { text = nuls max_str; string_len = 0 } in
          let all : max_str ≡ max_str - 0 = omega arith in
          rw failed (record {
            end = stops status cleared;
            ends = refl;
            shows =
                shows_stopped status cleared (record a { text = [] }) (ap nuls all) refl room tt;
          })
    ]
    read_loop-Read (stroke key ∷ keys) e a r room = elim (Bool-cases (key.unicode_char == 0x0d)) [
      | inl done ↦
          rw done (record { end = stops shown e; ends = refl; shows = stopped shown e a r })
      | inr more ↦
          let step = edit_does max_str history e a r texts key in
          let next =
            read_loop-Read keys step.editor (edit_line max_str history a key) step.holds room in
          rw more (record {
            end = next.end;
            ends =
                ap (λ o. and_then o (λ e'. read_loop max_str history shown e' keys)) step.ends
                ∙ next.ends;
            shows = next.shows;
          })
    ]

  abbrev pub line_result : (List (List ℕ) → List ℕ → List (List ℕ)) → LineEnd → InRead
  line_result add (line_waits a) = in_wait
  line_result add (line_stops status a) =
      returns status (length a.text * 2) (a.text ++ nuls (max_str - length a.text))
        (if length a.text == 0 then history else add history a.text)

  c_string-nuls : (s : List ℕ) (k : ℕ) → Lacks 0 s → 0 < k → c_string (s ++ nuls k) ≡ s
  c_string-nuls s zero h room = absurd (omega arith)
  c_string-nuls s (suc k) h room = c_string-append s (nuls k) h

  result_same :
      (add : List (List ℕ) → List ℕ → List (List ℕ)) (end : LoopEnd) (l : LineEnd)
      → Shows end l
      → on_loop add history end ≡ line_result add l
  result_same add end l (shows_waiting e a) = refl
  result_same add end l (shows_stopped status e a text len short lacks) =
      let line : c_string e.text ≡ a.text =
        ap c_string text
        ∙ c_string-nuls a.text (max_str - length a.text) lacks (omega (arith, short)) in
      ap₂
        (λ n s.
          returns status (n * 2) s
            (if length (c_string e.text) == 0 then history else add history (c_string e.text)))
        len text
      ∙ ap
          (λ s.
            returns status (length a.text * 2) (a.text ++ nuls (max_str - length a.text))
              (if length s == 0 then history else add history s))
          line

  start-Represents : 0 < max_str → Represents max_str history (empty_editor max_str) empty_line
  start-Represents room =
      let n : suc (max_str - 1) ≡ max_str = omega (arith, room) in
      record {
        spare = max_str - 1;
        text = ap nuls (sym n);
        len = refl;
        pos = refl;
        inside = omega arith;
        room = omega (arith, room);
        lacks = tt;
        delete = refl;
        new = refl;
        line = refl;
        nodes = omega arith;
      }

module _ (node_room line_room : Bool) (shown : Status) (columns rows start_column : ℕ) where
  -- If *BufferSize is 4 or more, there is room for a character on the screen, and no line of the
  -- history has a NUL in it, UefiConsoleInRead makes no access outside the first MaxStr characters
  -- of its buffer. It waits as long as no carriage return and no error but EFI_NOT_READY came; then
  -- it returns twice the length of the line that the keys have edited (empty behind an error), the
  -- line with NULs behind it up to MaxStr, and the history with the line in it unless it is empty.
  pub uefi_console_in_read-Reads :
      (buffer_size : ℕ) (buffer : List ℕ) (history : List (List ℕ)) (keys : List KeyStroke)
      → 4 ≤ buffer_size
      → 0 < max_line buffer_size columns rows start_column
      → All (Lacks 0) history
      → uefi_console_in_read node_room line_room shown columns rows start_column buffer_size buffer
          history keys
        ≡ some (
            line_result
              (max_line buffer_size columns rows start_column)
              history
              shown
              (add_line_to_command_history node_room line_room)
              (line_loop
                (max_line buffer_size columns rows start_column)
                history
                shown
                empty_line
                keys))
  unfolding uefi_console_in_read
  uefi_console_in_read-Reads buffer_size buffer history keys enough room texts =
      let n = max_line buffer_size columns rows start_column in
      let add = add_line_to_command_history node_room line_room in
      let read =
        read_loop-Read n history shown texts keys (empty_editor n) empty_line
          (start-Represents n history shown room) room in
      let large : ltb buffer_size 4 ≡ false = ground (arith, enough) in
      rw (large, read.ends)
        (ap some (
          result_same n history shown add read.end (line_loop n history shown empty_line keys)
            read.shows))
