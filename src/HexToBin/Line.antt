-- ===== src/HexToBin/Line.antt =====
-- IntelHexGetLine of Application/HexToBin/HexToBin.c. SetMem and CopyMem fill and copy memory.
pub mod Bounds
use uefi_toolkit_pkg.Base.{
  ℕ, suc, ◌+◌, ◌-◌, ◌||◌, [], ◌∷◌, ◌++◌, Bytes, length, get_or, take, drop, replicate, ltb, leb,
  ◌==◌, if◌then◌else◌, Status, success, error, buffer_too_small,
}

-- The offset at which the loop stops: a line break, or the end.
unfoldable pub break_offset : Bytes → ℕ
break_offset [] = 0
break_offset (c ∷ s) = if c == 0x0d || c == 0x0a then 0 else suc (break_offset s)

unfoldable pub line_length : Bytes → ℕ
line_length s =
    let i = break_offset s in
    if leb (length s) (i + 1) then length s else if get_or s (i + 1) 0 == 0x0a then i + 2 else i + 1

-- CopyMem of `n` bytes, `n` at most the size of both.
abbrev pub copy_mem : Bytes → Bytes → ℕ → Bytes
copy_mem dst src n = take n src ++ drop n dst

-- The status, the line buffer and *LineSize afterwards.
unfoldable pub get_line : Bytes → Bytes → ℕ → Status × Bytes × ℕ
get_line source line_buffer line_size =
    let len = line_length source in
    if ltb line_size len
    then (error buffer_too_small, line_buffer, len)
    else (success, copy_mem (replicate line_size 0 ++ drop line_size line_buffer) source len, len)
