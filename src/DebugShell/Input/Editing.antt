-- ===== src/DebugShell/Input/Editing.antt =====
-- ShellReadLine leaves in its buffer the line as the keys edit it, and stays inside the buffer.
use uefi_toolkit_pkg.Base.{
  ℕ, ◌+◌, ◌-◌, ◌<◌, ◌≡◌, refl, true, false, [], ◌∷◌, ◌++◌, Option, some, arith, Bytes, All, Lacks,
  length, set, set-append, append_assoc, ltb, c_string, if◌then◌else◌, Bool-cases, ap,
  c_string-append, inl, inr,
}
use uefi_toolkit_pkg.DebugShell.Input.{
  Editor, is_eol, is_erase, is_printable, erase_echo, edit, read_loop, read_line,
}

abbrev erase_last : Bytes → Bytes
erase_last [] = []
erase_last (c ∷ typed) = typed

-- The line typed so far, last byte first: an erase takes one away, a printable byte is added while
-- there is room, anything else is ignored.
abbrev pub type_key : ℕ → Bytes → ℕ → Bytes
type_key room typed ch =
    if is_erase ch
    then erase_last typed
    else if is_printable ch
    then if ltb (length typed) room then ch ∷ typed else typed
    else typed

abbrev pub type_keys : ℕ → Bytes → Bytes → Bytes
type_keys room typed [] = typed
type_keys room typed (ch ∷ keys) = type_keys room (type_key room typed ch) keys

-- What is typed, in order, before `tail`.
abbrev pub onto : Bytes → Bytes → Bytes
onto [] tail = tail
onto (c ∷ typed) tail = onto typed (c ∷ tail)

length-onto : (typed tail : Bytes) → length (onto typed tail) ≡ length typed + length tail
length-onto [] tail = omega arith
length-onto (c ∷ typed) tail = omega (arith, length-onto typed (c ∷ tail))

onto-append : (typed tail : Bytes) → onto typed tail ≡ onto typed [] ++ tail
onto-append [] tail = refl
onto-append (c ∷ typed) tail =
    rw (onto-append typed (c ∷ tail), onto-append typed (c ∷ []), append_assoc) refl

set-onto :
    (typed tail : Bytes) (y v : ℕ)
    → set (onto typed (y ∷ tail)) (length typed) v ≡ onto typed (v ∷ tail)
set-onto typed tail y v =
    let size : length typed ≡ length (onto typed []) = omega (arith, length-onto typed []) in
    rw (onto-append typed (y ∷ tail), onto-append typed (v ∷ tail), size)
      (set-append (onto typed []) tail y v)

-- The buffer holds what is typed, and there is room for one more byte.
record Holds (size : ℕ) (typed : Bytes) (e : Editor) : Type 0 where
  spare : ℕ
  tail : Bytes
  buffer : e.buf ≡ onto typed (spare ∷ tail)
  at : e.pos ≡ length typed
  full : length typed + length tail + 1 ≡ size

erased-Holds :
    (size : ℕ) (sent typed : Bytes) (e : Editor)
    → Holds size typed e
    → Holds size
        (erase_last typed)
        (if ltb 0 e.pos then record e { pos = e.pos - 1; sent = sent } else e)
erased-Holds size sent [] e h = let empty : ltb 0 e.pos ≡ false = rw h.at refl in rw empty h
erased-Holds size sent (c ∷ typed) e h =
    let typed_some : ltb 0 e.pos ≡ true = ground (arith, h.at) in
    rw typed_some (record {
      spare = c;
      tail = h.spare ∷ h.tail;
      buffer = h.buffer;
      at = omega (arith, h.at);
      full = omega (arith, h.full);
    })

added-Holds :
    (size ch : ℕ) (sent typed : Bytes) (e : Editor)
    → Holds size typed e
    → length typed < size - 1
    → Holds size (ch ∷ typed) (record e { buf = set e.buf e.pos ch; pos = e.pos + 1; sent = sent })
added-Holds size ch sent typed e h room = go h.tail h.buffer h.full
  where
    go :
        (tail : Bytes)
        → e.buf ≡ onto typed (h.spare ∷ tail)
        → length typed + length tail + 1 ≡ size
        → Holds size
            (ch ∷ typed)
            (record e { buf = set e.buf e.pos ch; pos = e.pos + 1; sent = sent })
    go [] b f = absurd (omega arith)
    go (y ∷ tail) b f = record {
      spare = y;
      tail = tail;
      buffer = rw (b, h.at) (set-onto typed (y ∷ tail) h.spare ch);
      at = omega (arith, h.at);
      full = omega arith;
    }

edit-Holds :
    (size ch : ℕ) (typed : Bytes) (e : Editor)
    → Holds size typed e
    → Holds size (type_key (size - 1) typed ch) (edit size ch e)
unfolding edit
edit-Holds size ch typed e h = elim (Bool-cases (is_erase ch)) [
  | inl erased ↦ rw erased (erased-Holds size (e.sent ++ erase_echo) typed e h)
  | inr kept ↦ elim (Bool-cases (is_printable ch)) [
    | inr ignored ↦ rw (kept, ignored) h
    | inl printed ↦ elim (Bool-cases (ltb (length typed) (size - 1))) [
      | inl room ↦
          let fits : ltb e.pos (size - 1) ≡ true = rw h.at room in
          rw (kept, printed, fits, room)
            (added-Holds size ch (e.sent ++ ch ∷ []) typed e h (ground arith))
      | inr packed ↦
          let stays : ltb e.pos (size - 1) ≡ false = rw h.at packed in
          rw (kept, printed, stays, packed) h
    ]
  ]
]

-- The bytes that a typed line is made of are printable.
type_key-Lacks : (room ch : ℕ) (typed : Bytes) → Lacks 0 typed → Lacks 0 (type_key room typed ch)
type_key-Lacks room ch [] h = ground arith
type_key-Lacks room ch (c ∷ typed) h = ground arith

onto-Lacks : (typed tail : Bytes) → Lacks 0 typed → Lacks 0 tail → Lacks 0 (onto typed tail)
onto-Lacks [] tail h k = k
onto-Lacks (c ∷ typed) tail h k = onto-Lacks typed (c ∷ tail) h.1 (h.0, k)

-- What ShellReadLine returns: the text in the buffer, the buffer's size, and the input left over.
pub record Reads (size : ℕ) (text rest : Bytes) (r : Option (Editor × Bytes)) : Type 0 where
  pub editor : Editor
  pub returns : r ≡ some (editor, rest)
  pub holds : c_string editor.buf ≡ text
  pub sized : length editor.buf ≡ size
  pub bounded : editor.pos < size

read_loop-Reads :
    (size eol : ℕ) (keys rest typed : Bytes) (e : Editor)
    → All (λ ch. is_eol ch ≡ false) keys
    → is_eol eol ≡ true
    → Lacks 0 typed
    → Holds size typed e
    → Reads size
        (onto (type_keys (size - 1) typed keys) [])
        rest
        (read_loop size (keys ++ eol ∷ rest) e)
unfolding read_loop
read_loop-Reads size eol [] rest typed e plain ends text h = record {
  editor = record e { buf = set e.buf e.pos 0; sent = e.sent ++ b'\r' ∷ b'\n' ∷ [] };
  returns = rw ends;
  holds = rw closed (
      rw (onto-append typed (0 ∷ h.tail))
        (c_string-append (onto typed []) h.tail (onto-Lacks typed [] text tt)));
  sized = omega (arith, ap length closed, length-onto typed (0 ∷ h.tail), h.full);
  bounded = omega (arith, h.at, h.full);
}
  where
    closed : set e.buf e.pos 0 ≡ onto typed (0 ∷ h.tail)
    closed = rw (h.buffer, h.at) (set-onto typed h.tail h.spare 0)
read_loop-Reads size eol (ch ∷ keys) rest typed e plain ends text h = rw (plain.0) (
    read_loop-Reads size eol keys rest (type_key (size - 1) typed ch) (edit size ch e) plain.1 ends
      (type_key-Lacks (size - 1) ch typed text) (edit-Holds size ch typed e h))

start-Holds :
    (buf sent : Bytes)
    → 0 < length buf
    → Holds (length buf) [] (record { buf = buf; pos = 0; sent = sent })
start-Holds [] sent h = absurd (omega arith)
start-Holds (b ∷ buf) sent h = record {
  spare = b;
  tail = buf;
  buffer = refl;
  at = refl;
  full = omega arith;
}

-- On input that holds an end of line, ShellReadLine returns: the NUL-terminated text in its buffer
-- is the typed line, edited by the erase keys and cut at BufSize - 1 bytes, the position of the NUL
-- is inside the buffer, the buffer keeps its size, and the input behind the end of line is left.
pub read_line-Reads :
    (buf keys rest sent : Bytes) (eol : ℕ)
    → 0 < length buf
    → All (λ ch. is_eol ch ≡ false) keys
    → is_eol eol ≡ true
    → Reads
        (length buf)
        (onto (type_keys (length buf - 1) [] keys) [])
        rest
        (read_line (length buf) buf (keys ++ eol ∷ rest) sent)
unfolding read_line
read_line-Reads buf keys rest sent eol room plain ends =
    read_loop-Reads (length buf) eol keys rest [] _ plain ends tt (start-Holds buf sent room)
