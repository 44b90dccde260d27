-- ===== src/UefiConsole/InputLine/Edited.antt =====
-- What a key does to the text that the buffer of UefiConsole.c holds.
pub mod Keyboard
pub mod Keys
pub mod Removal
pub mod Replaced
pub mod Round
use uefi_toolkit_pkg.Base.{
  ℕ, zero, suc, ◌+◌, ◌-◌, ◌≤◌, ◌<◌, ◌≡◌, ◌∙◌, refl, sym, ap, ap₂, subst, true, false, List, [], ◌∷◌,
  ◌++◌, ◌&&◌, All, Lacks, Option, none, some, and_then, get_or, length, length-append, take, drop,
  length-drop, length-replicate, drop-append_add, drop-replicate, ltb, leb, ◌==◌, if◌then◌else◌,
  arith, Bool-cases, inl, inr, Option-cases,
}
use uefi_toolkit_pkg.UefiConsole.InputLine.{
  Editor, InputKey, str_len, set_nul, settle, refresh, refresh_at, previous_node, next_node,
}
use uefi_toolkit_pkg.UefiConsole.InputLine.Buffer.{
  overwrite_at, remove_at, nuls, str_len-text, set_nul-behind,
}

-- The line as it is typed: its characters, the place of the cursor, and the line of the history that
-- was shown last.
pub record Line : Type 0 where
  pub text : List ℕ
  pub pos : ℕ
  pub line_pos : ℕ

module _ (max_str : ℕ) (history : List (List ℕ)) where
  -- A line of the history in place of the text, unless it is the head of the list.
  unfoldable pub recall_line : Line → ℕ → Line
  recall_line a n =
      let shown : List ℕ = take (max_str - 1) (get_or history (n - 1) []) in
      if n == 0 then a else record { text = shown; pos = length shown; line_pos = n }

  -- What the keys do: a character replaces the one at the cursor, or is put at the end.
  unfoldable pub type_line : Line → ℕ → Line
  unfolding overwrite_at
  type_line a c =
      if leb 32 c
      then if length a.text == max_str - 1 && a.pos == length a.text
        then a
        else record a { text = overwrite_at a.text a.pos c; pos = a.pos + 1 }
      else a

  unfoldable pub scan_line : Line → ℕ → Line
  unfolding remove_at recall_line
  scan_line a code =
      if code == 0x08
      then record a { text = remove_at a.text a.pos }
      else if code == 0x01
      then recall_line a (previous_node (length history) a.line_pos)
      else if code == 0x02
      then recall_line a (next_node (length history) a.line_pos)
      else if code == 0x04
      then record a { pos = a.pos - 1 }
      else if code == 0x03
      then if ltb a.pos (length a.text) then record a { pos = a.pos + 1 } else a
      else if code == 0x05
      then record a { pos = 0 }
      else if code == 0x06
      then record a { pos = length a.text }
      else if code == 0x17
      then record a { text = []; pos = 0 }
      else a

  unfoldable pub edit_line : Line → InputKey → Line
  unfolding type_line scan_line remove_at
  edit_line a key =
      if key.unicode_char == 0x08
      then if a.pos == 0
        then a
        else record a { text = remove_at a.text (a.pos - 1); pos = a.pos - 1 }
      else if key.unicode_char == 0
      then scan_line a key.scan_code
      else type_line a key.unicode_char

  -- The buffer holds a line, with NULs behind it, between two keys.
  pub record Represents (e : Editor) (a : Line) : Type 0 where
    pub spare : ℕ
    pub text : e.text ≡ a.text ++ nuls (suc spare)
    pub len : e.string_len ≡ length a.text
    pub pos : e.cur_pos ≡ a.pos
    pub inside : a.pos ≤ length a.text
    pub room : length a.text + suc spare ≡ max_str
    pub lacks : Lacks 0 a.text
    pub delete : e.delete ≡ 0
    pub new : e.new_pos ≡ 0
    pub line : e.line_pos ≡ a.line_pos
    pub nodes : a.line_pos ≤ length history

  -- The text of the line is there, but its length is not yet known.
  pub record Changed (e : Editor) (a : Line) : Type 0 where
    pub place : ℕ
    pub update : e.update ≡ some place
    pub behind : List ℕ
    pub spare : ℕ
    pub text : e.text ≡ a.text ++ 0 ∷ behind
    pub covered : e.delete ≤ suc (length behind)
    pub tail : drop e.delete (0 ∷ behind) ≡ nuls spare
    pub pos : (if ltb (length a.text) e.cur_pos then length a.text else e.cur_pos) ≡ a.pos
    pub inside : a.pos ≤ length a.text
    pub room : length a.text + suc (length behind) ≡ max_str
    pub lacks : Lacks 0 a.text
    pub new : e.new_pos ≡ 0
    pub line : e.line_pos ≡ a.line_pos
    pub nodes : a.line_pos ≤ length history

  -- What is known of the editor, at values for its fields.
  set_nul-settled :
      (s z : List ℕ) (d k : ℕ)
      → drop d (0 ∷ z) ≡ nuls k
      → d ≤ suc (length z)
      → (if d == 0 then some (s ++ 0 ∷ z) else set_nul (s ++ 0 ∷ z) (length s) d)
        ≡ some (s ++ nuls (d + k))
  set_nul-settled s z d k tail covered = elim (Bool-cases (d == 0)) [
    | inl nothing ↦
        let e : d ≡ 0 = ground (arith, nothing) in
        let same_tail : 0 ∷ z ≡ nuls k = ap (λ n. drop n (0 ∷ z)) (sym e) ∙ tail in
        let n : k ≡ d + k = omega (arith, e) in
        rw nothing (ap (λ ys. some (s ++ ys)) (same_tail ∙ ap nuls n))
    | inr some_chars ↦ rw some_chars (set_nul-behind s (0 ∷ z) d k tail covered)
  ]

  length-tail :
      (z : List ℕ) (d k : ℕ) → drop d (0 ∷ z) ≡ nuls k → d ≤ suc (length z) → d + k ≡ suc (length z)
  length-tail z d k tail covered =
      let n : length (drop d (0 ∷ z)) ≡ k = ap length tail ∙ length-replicate k 0 in
      omega (arith, n, covered, length-drop d (0 ∷ z))

  settled :
      (e : Editor) (s z : List ℕ) (u k : ℕ)
      → e.update ≡ some u
      → e.text ≡ s ++ 0 ∷ z
      → Lacks 0 s
      → drop e.delete (0 ∷ z) ≡ nuls k
      → e.delete ≤ suc (length z)
      → refresh max_str history e
        ≡ some (record e {
          text = s ++ nuls (e.delete + k);
          string_len = length s;
          cur_pos = if ltb (length s) e.cur_pos then length s else e.cur_pos;
          update = none;
          delete = 0;
        })
  unfolding refresh
  settled e s z u k update text lacks tail covered =
      let len = str_len-text s z lacks in
      let blank = set_nul-settled s z e.delete k tail covered in rw (update, text, len, blank) refl

  pub refresh-Represents :
      (e : Editor) (a : Line)
      → Changed e a
      → (e' : Editor) × (refresh max_str history e ≡ some e') × Represents e' a
  refresh-Represents e a c =
      let total = length-tail c.behind e.delete c.spare c.tail c.covered in
      (
        record e {
          text = a.text ++ nuls (e.delete + c.spare);
          string_len = length a.text;
          cur_pos = if ltb (length a.text) e.cur_pos then length a.text else e.cur_pos;
          update = none;
          delete = 0;
        },
        settled e a.text c.behind c.place c.spare c.update c.text c.lacks c.tail c.covered,
        record {
          spare = length c.behind;
          text = ap (λ n. a.text ++ nuls n) total;
          len = refl;
          pos = c.pos;
          inside = c.inside;
          room = c.room;
          lacks = c.lacks;
          delete = refl;
          new = c.new;
          line = c.line;
          nodes = c.nodes;
        },
      )

  no_update : (e : Editor) → e.update ≡ none → refresh max_str history e ≡ some e
  unfolding refresh
  no_update e nothing = ap (refresh_at max_str history e) nothing

  pub kept_pos : (p q n : ℕ) → p ≡ q → q ≤ n → (if ltb n p then n else p) ≡ q
  kept_pos p q n e h = ground (arith, e, h)

  unchanged :
      (e : Editor) (a : Line) (place : ℕ) → Represents e a → e.update ≡ some place → Changed e a
  unchanged e a place r update =
      let blank = length-replicate {A = ℕ} r.spare 0 in
      record {
        place = place;
        update = update;
        behind = nuls r.spare;
        spare = suc r.spare;
        text = r.text;
        covered = omega (arith, r.delete);
        tail = ap (λ n. drop n (nuls (suc r.spare))) r.delete;
        pos = kept_pos e.cur_pos a.pos (length a.text) r.pos r.inside;
        inside = r.inside;
        room = omega (arith, r.room, blank);
        lacks = r.lacks;
        new = r.new;
        line = r.line;
        nodes = r.nodes;
      }

  -- A round that leaves the text as it is.
  pub refresh-still :
      (e : Editor) (a : Line)
      → Represents e a
      → (e' : Editor) × (refresh max_str history e ≡ some e') × Represents e' a
  refresh-still e a r = elim (Option-cases e.update) [
    | inl nothing ↦ (e, no_update e nothing, r)
    | inr (place, update) ↦ refresh-Represents e a (unchanged e a place r update)
  ]
