-- ===== src/DebugShell/Input.antt =====
-- ShellReadLine of Library/DebugShellLib/DebugShellLib.c.
pub mod Editing
use uefi_toolkit_pkg.Base.{
  ℕ, ◌+◌, ◌-◌, Bool, ◌&&◌, ◌||◌, [], ◌∷◌, ◌++◌, Option, none, some, Bytes, set, ltb, leb, ◌==◌,
  if◌then◌else◌,
}

-- The line buffer, `Pos`, and the bytes that SerialPortWrite sent.
pub record Editor : Type 0 where
  pub buf : Bytes
  pub pos : ℕ
  pub sent : Bytes

abbrev pub is_eol : ℕ → Bool
is_eol ch = ch == b'\r' || ch == b'\n'

abbrev pub is_erase : ℕ → Bool
is_erase ch = ch == 0x08 || ch == 0x7f

abbrev pub is_printable : ℕ → Bool
is_printable ch = leb 0x20 ch && ltb ch 0x7f

abbrev pub erase_echo : Bytes
erase_echo = 0x08 ∷ b' ' ∷ 0x08 ∷ []

-- One round of the loop, on a byte that does not end the line.
unfoldable pub edit : ℕ → ℕ → Editor → Editor
edit buf_size ch e =
    if is_erase ch
    then if ltb 0 e.pos then record e { pos = e.pos - 1; sent = e.sent ++ erase_echo } else e
    else if is_printable ch
    then if ltb e.pos (buf_size - 1)
      then record e { buf = set e.buf e.pos ch; pos = e.pos + 1; sent = e.sent ++ ch ∷ [] }
      else e
    else e

-- The loop over the bytes that arrive; `none` when they end and the port is polled for ever.
unfoldable pub read_loop : ℕ → Bytes → Editor → Option (Editor × Bytes)
read_loop buf_size [] e = none
read_loop buf_size (ch ∷ input) e =
    let more = read_loop buf_size input (edit buf_size ch e) in
    if is_eol ch
    then some (record e { buf = set e.buf e.pos 0; sent = e.sent ++ b'\r' ∷ b'\n' ∷ [] }, input)
    else more

-- The buffer, what was sent, and the bytes not yet read.
unfoldable pub read_line : ℕ → Bytes → Bytes → Bytes → Option (Editor × Bytes)
unfolding read_loop edit
read_line buf_size buf input sent =
    read_loop buf_size input (record { buf = buf; pos = 0; sent = sent })
