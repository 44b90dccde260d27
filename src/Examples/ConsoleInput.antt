-- ===== src/Examples/ConsoleInput.antt =====
-- Keys for UefiConsoleInRead of Drivers/Dxe/UefiConsole/UefiConsole.c.
use uefi_toolkit_pkg.Base.{
  ℕ, ◌≡◌, ◌≢◌, ◌<◌, ◌++◌, c_string, refl, true, List, [], ◌∷◌, some, codes, success, arith,
}
use uefi_toolkit_pkg.UefiConsole.InputLine.{
  KeyStroke, stroke, edit, on_key, recall, refresh, scan, type_char, backspace, delete_at,
}
use uefi_toolkit_pkg.UefiConsole.InRead.{
  add_line_to_command_history, max_line, returns, read_loop, uefi_console_in_read,
}
use uefi_toolkit_pkg.UefiConsole.InRead.Reads.{
  empty_line, line_loop, line_result, uefi_console_in_read-Reads,
}

abbrev typed : ℕ → KeyStroke
typed c = stroke (record { unicode_char = c; scan_code = 0 })

abbrev pressed : ℕ → KeyStroke
pressed code = stroke (record { unicode_char = 0; scan_code = code })

-- "hex", a step back, "l" over the last character, a backspace on it, then the last line and its end.
abbrev keys : List KeyStroke
keys =
    typed 104
    ∷ typed 101
    ∷ typed 120
    ∷ pressed 0x04
    ∷ typed 108
    ∷ typed 0x08
    ∷ pressed 0x01
    ∷ typed 115
    ∷ typed 0x0d
    ∷ []

abbrev old : List (List ℕ)
old = codes "mem" ∷ []

ne : (n : ℕ) → 0 < n → n ≢ 0
ne n h e = omega (arith, h, e)

four : 0 < max_line 16 80 25 0
unfolding max_line
four = omega arith

uefi_console_in_read-Reads_example :
    uefi_console_in_read true true success 80 25 0 16 [] old keys
    ≡ some (
        line_result
          (max_line 16 80 25 0)
          old
          success
          (add_line_to_command_history true true)
          (line_loop (max_line 16 80 25 0) old success empty_line keys))
uefi_console_in_read-Reads_example =
    uefi_console_in_read-Reads true true success 80 25 0 16 [] old keys (omega arith) four
      ((ne 109 (omega arith), (ne 101 (omega arith), (ne 109 (omega arith), tt))), tt)

keys_run :
    uefi_console_in_read true true success 80 25 0 16 [] old keys
    ≡ some (returns success 8 (codes "mems" ++ 0 ∷ 0 ∷ 0 ∷ 0 ∷ []) (old ++ codes "mems" ∷ []))
unfolding uefi_console_in_read read_loop max_line edit add_line_to_command_history on_key recall
    refresh scan type_char backspace delete_at c_string
keys_run = refl
