-- ===== src/UefiConsole/Prompt/Typed.antt =====
-- A command line that is typed at the prompt of Drivers/Dxe/UefiConsole/UefiConsole.c.
use uefi_toolkit_pkg.Base.{
  ℕ, zero, suc, ◌+◌, ◌-◌, ◌*◌, ◌/◌, ◌%◌, ◌^◌, ◌≤◌, ◌<◌, ◌≡◌, ◌∙◌, refl, sym, ap, Bool, true, false,
  List, [], ◌∷◌, ◌++◌, All, Lacks, Option, some, and_then, length, length-append, append_assoc,
  append-nil, take, set, set-append, c_string, c_string-append, replicate, leb, ◌==◌, if◌then◌else◌,
  if_true, Status, efi_error, arith,
}
use uefi_toolkit_pkg.UefiConsole.InputLine.{KeyStroke, stroke}
use uefi_toolkit_pkg.UefiConsole.InputLine.Buffer.{nuls, overwrite_at_end}
use uefi_toolkit_pkg.UefiConsole.InputLine.Edited.{Line, type_line, edit_line}
use uefi_toolkit_pkg.UefiConsole.InRead.{add_line_to_command_history, max_line, returns}
use uefi_toolkit_pkg.UefiConsole.InRead.Reads.{
  line_stops, line_loop, line_result, uefi_console_in_read-Reads,
}
use uefi_toolkit_pkg.UefiConsole.CommandLine.Next.Escaped.{not_zero}
use uefi_toolkit_pkg.UefiConsole.CommandLine.Trimmed.{StartsSolid, EndsSolid}
use uefi_toolkit_pkg.UefiConsole.CommandLine.Arguments.Joined.{Word, joined, behind_room}
use uefi_toolkit_pkg.UefiConsole.Run.{Console, Ran, Rooms, run_shell_command}
use uefi_toolkit_pkg.UefiConsole.Run.Handled.{HasRoom, handled, run_shell_command-joined}
use uefi_toolkit_pkg.UefiConsole.Prompt.{Terminal, prompted, on_read, do_console_prompt}

-- The size of CmdLine, and MaxStr.
abbrev pub buffer_bytes : Terminal → ℕ
buffer_bytes t = t.columns * t.rows * 2 % 2 ^ 64

abbrev pub line_room_of : Terminal → ℕ
line_room_of t = max_line (buffer_bytes t) t.columns t.rows t.start_column

-- The strokes of the keys of a text.
unfoldable pub strokes : List ℕ → List KeyStroke
strokes [] = []
strokes (c ∷ s) = stroke (record { unicode_char = c; scan_code = 0 }) ∷ strokes s

abbrev pub enter : KeyStroke
enter = stroke (record { unicode_char = 0x0d; scan_code = 0 })

-- A character that the line takes.
abbrev pub Printable : ℕ → Type 0
Printable c = 32 ≤ c

module _ (n : ℕ) (history : List (List ℕ)) (shown : Status) where
  abbrev at_end : List ℕ → ℕ → Line
  at_end s line_pos = record { text = s; pos = length s; line_pos = line_pos }

  typed_tests :
      (c len : ℕ)
      → Printable c
      → len + 1 < n
      → ((c == 8) ≡ false)
        × ((c == 0) ≡ false)
        × ((c == 0x0d) ≡ false)
        × (leb 32 c ≡ true)
        × ((len == n - 1) ≡ false)
  typed_tests c len h room = (
    ground (arith, h),
    ground (arith, h),
    ground (arith, h),
    ground (arith, h),
    ground (arith, room),
  )

  type_end :
      (s : List ℕ) (l c : ℕ)
      → Printable c
      → length s + 1 < n
      → edit_line n history (at_end s l) (record { unicode_char = c; scan_code = 0 })
        ≡ at_end (s ++ c ∷ []) l
  unfolding edit_line type_line
  type_end s l c h room =
      let t = typed_tests c (length s) h room in
      let longer : length s + 1 ≡ length (s ++ c ∷ []) = omega (arith, length-append s (c ∷ [])) in
      rw (t.0, t.1, t.3, t.4, overwrite_at_end s (length s) c refl)
        (ap (λ (k : ℕ). record { text = s ++ c ∷ []; pos = k; line_pos = l }) longer)

  line_loop-strokes :
      (s typed : List ℕ) (l : ℕ) (more : List KeyStroke)
      → All Printable typed
      → length s + length typed < n
      → line_loop n history shown (at_end s l) (strokes typed ++ enter ∷ more)
        ≡ line_stops shown (at_end (s ++ typed) l)
  unfolding line_loop strokes
  line_loop-strokes s [] l more h room =
      ap (λ t. line_stops shown (at_end t l)) (sym (append-nil s))
  line_loop-strokes s (c ∷ typed) l more h room =
      let first : length s + 1 < n = omega (arith, room) in
      let t = typed_tests c (length s) h.0 first in
      let longer : length (s ++ c ∷ []) + length typed < n =
        omega (arith, length-append s (c ∷ []), room) in
      rw (t.2, type_end s l c h.0 first)
        (line_loop-strokes (s ++ c ∷ []) typed l more h.1 longer
          ∙ ap (λ u. line_stops shown (at_end u l)) (append_assoc s (c ∷ []) typed))

Printable-Lacks : (s : List ℕ) → All Printable s → Lacks 0 s
Printable-Lacks [] h = tt
Printable-Lacks (c ∷ s) h = ((λ e. absurd (omega (arith, e, h.0))), Printable-Lacks s h.1)

-- The NUL that DoConsolePrompt writes behind the line.
closed_line :
    (s : List ℕ) (k : ℕ) → Lacks 0 s → 0 < k → c_string (set (s ++ nuls k) (length s * 2 / 2) 0) ≡ s
closed_line s zero h room = absurd (omega arith)
closed_line s (suc k) h room =
    let half : length s * 2 / 2 ≡ length s = omega arith in
    rw (half, set-append s (nuls k) 0 0) (c_string-append s (nuls k) h)

module _ (debug : Bool) (str_n_cpy_s : ℕ → List ℕ → ℕ → List ℕ → List ℕ)
    -- StrnCpyS copies what fits.
    (copies : (max : ℕ) (s : List ℕ) (n : ℕ) (old : List ℕ)
      → n < max
      → n ≤ length s
      → str_n_cpy_s max s n old ≡ take n s)
    (rooms : Rooms) (has_room : HasRoom rooms) {S : Type 0}
    (run : List ℕ → Console S → Status × Option (Bool × ℕ) × Console S) where
  abbrev pub done : Word → List Word → Console S → Ran S
  done = handled debug str_n_cpy_s copies rooms has_room run

  on_read-joined :
      (w : Word) (ws : List Word) (c : Console S) (shown : Status) (n : ℕ) (history : List (List ℕ))
      → efi_error shown ≡ false
      → length (joined w ws) < n
      → StartsSolid (joined w ws)
      → EndsSolid (joined w ws)
      → Lacks 35 (joined w ws)
      → All Printable (joined w ws)
      → on_read (run_shell_command debug str_n_cpy_s rooms run) c (
          returns shown
            (length (joined w ws) * 2)
            (joined w ws ++ nuls (n - length (joined w ws)))
            history)
        ≡ some (prompted (done w ws c).0 history (done w ws c).2)
  on_read-joined w ws c shown n history fine room starts ends lacks typed =
      let line = joined w ws in
      rw
        (
          fine,
          closed_line line (n - length line) (Printable-Lacks line typed) (omega (arith, room)),
          run_shell_command-joined debug str_n_cpy_s copies rooms has_room run w ws c starts ends
              lacks,
        )
        refl

  -- For every list of parameters that are not empty, written as one line with a space between them
  -- and an escape character before each space, quote and escape character: when the line has no
  -- `#`, no character below the space, no space at its ends and fits on the screen and in the
  -- buffer, the pool has room and the line could be shown, then typing its characters and the
  -- carriage return at the prompt runs the handler of the first parameter once, with Argv and Argc
  -- these parameters and their number, puts the line into the history, and gives back the
  -- shell parameters from before. That StrnCpyS copies what fits is a hypothesis; no line of the
  -- history has a NUL in it.
  pub do_console_prompt-typed :
      (t : Terminal) (history : List (List ℕ)) (w : Word) (ws : List Word) (c : Console S)
      (more : List KeyStroke)
      → t.line_room ≡ true
      → efi_error t.shown ≡ false
      → All (Lacks 0) history
      → 4 ≤ buffer_bytes t
      → length (joined w ws) < line_room_of t
      → StartsSolid (joined w ws)
      → EndsSolid (joined w ws)
      → Lacks 35 (joined w ws)
      → All Printable (joined w ws)
      → do_console_prompt
          (run_shell_command debug str_n_cpy_s rooms run)
          t
          history
          (strokes (joined w ws) ++ enter ∷ more)
          c
        ≡ some (
            prompted
              (done w ws c).0
              (add_line_to_command_history t.node_room t.copy_room history (joined w ws))
              (done w ws c).2)
  unfolding do_console_prompt
  do_console_prompt-typed t history w ws c more room fine texts large fits starts ends lacks typed =
      let line = joined w ws in
      let n = line_room_of t in
      let add = add_line_to_command_history t.node_room t.copy_room in
      let read =
        uefi_console_in_read-Reads t.node_room t.copy_room t.shown t.columns t.rows t.start_column
          (buffer_bytes t) (replicate (buffer_bytes t / 2) 0) history (strokes line ++ enter ∷ more)
          large (omega (arith, fits)) texts in
      let lines = line_loop-strokes n history t.shown [] line 0 more typed (omega (arith, fits)) in
      let result =
        on_read-joined w ws c t.shown n (add history line) fine fits starts ends lacks typed in
      let filled : (if length line == 0 then history else add history line) ≡ add history line =
        rw (not_zero (length line) (behind_room 0 w ws)) refl in
      let got =
        read
        ∙ ap (λ l. some (line_result n history t.shown add l)) lines
        ∙ ap (λ h. some (returns t.shown (length line * 2) (line ++ nuls (n - length line)) h))
            filled in
      let answered =
        ap (λ o. and_then o (on_read (run_shell_command debug str_n_cpy_s rooms run) c)) got
        ∙ result in
      if_true t.line_room _ _ room ∙ answered
