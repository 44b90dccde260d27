-- ===== src/HexToBin/Line/Bounds.antt =====
-- IntelHexGetLine takes a line of one byte or more from a source that is not empty, never more than
-- the source has.
use uefi_toolkit_pkg.Base.{
  ℕ, suc, ◌+◌, ◌≤◌, ◌<◌, ◌≡◌, refl, ◌||◌, true, false, [], ◌∷◌, ◌++◌, arith, Bytes, All, length,
  take, drop, replicate, ltb, get_or, ◌==◌, length-append, append_assoc, ap, success,
}
use uefi_toolkit_pkg.HexToBin.Digits.Pairs.{NotBreak}
use uefi_toolkit_pkg.HexToBin.Line.{break_offset, line_length, get_line}

pub line_length_bounds :
    (s : Bytes) → 0 < length s → (0 < line_length s) × (line_length s ≤ length s)
unfolding line_length
line_length_bounds s h = ground arith

break_offset-append :
    (text rest : Bytes) (c : ℕ)
    → All NotBreak text
    → (c == 0x0d || c == 0x0a) ≡ true
    → break_offset (text ++ c ∷ rest) ≡ length text
unfolding break_offset
break_offset-append [] rest c h e = rw e
break_offset-append (d ∷ text) rest c h e = ground (arith, break_offset-append text rest c h.1 e)

get_or-append :
    (text rest : Bytes) (a b : ℕ) → get_or (text ++ a ∷ b ∷ rest) (length text + 1) 0 ≡ b
get_or-append [] rest a b = refl
get_or-append (c ∷ text) rest a b =
    let e : suc (length text) + 1 ≡ suc (length text + 1) = omega arith in
    rw e (get_or-append text rest a b)

-- A line of text and its CR LF.
line_length-crlf :
    (text rest : Bytes)
    → All NotBreak text
    → line_length (text ++ 0x0d ∷ 0x0a ∷ rest) ≡ length text + 2
unfolding line_length
line_length-crlf text rest h = ground (
  arith,
  break_offset-append text (0x0a ∷ rest) 0x0d h refl,
  get_or-append text rest 0x0d 0x0a,
  length-append text (0x0d ∷ 0x0a ∷ rest),
)

take_line :
    (text rest : Bytes)
    → take (length text + 2) (text ++ 0x0d ∷ 0x0a ∷ rest) ≡ text ++ 0x0d ∷ 0x0a ∷ []
take_line [] rest = refl
take_line (c ∷ text) rest =
    let e : suc (length text) + 2 ≡ suc (length text + 2) = omega arith in
    rw e (ap (◌∷◌ c) (take_line text rest))

pub drop_line : (text rest : Bytes) → drop (length text + 2) (text ++ 0x0d ∷ 0x0a ∷ rest) ≡ rest
drop_line [] rest = refl
drop_line (c ∷ text) rest =
    let e : suc (length text) + 2 ≡ suc (length text + 2) = omega arith in
    rw e (drop_line text rest)

-- A line that fits is copied to the front of the line buffer, and its size is returned.
pub get_line-crlf :
    (text rest line_buffer : Bytes) (line_size : ℕ)
    → All NotBreak text
    → length text + 2 ≤ line_size
    → (tail : Bytes) × (get_line (text ++ 0x0d ∷ 0x0a ∷ rest) line_buffer line_size
        ≡ (success, text ++ tail, length text + 2))
unfolding get_line
get_line-crlf text rest line_buffer line_size h fits =
    let room : ltb line_size (length text + 2) ≡ false = ground arith in
    (
      0x0d ∷ 0x0a ∷ drop (length text + 2) (replicate line_size 0 ++ drop line_size line_buffer),
      rw (line_length-crlf text rest h, room, take_line text rest, append_assoc) refl,
    )
