-- ===== src/UefiConsole/InputLine/Edited/Keys.antt =====
-- What each key of UefiConsoleInRead does to the line that the buffer holds.
use uefi_toolkit_pkg.Base.{
  ℕ, zero, suc, ◌+◌, ◌-◌, ◌≤◌, ◌<◌, ◌≡◌, ◌∙◌, refl, sym, ap, ap₂, subst, true, false, ◌&&◌, List,
  [], ◌∷◌, ◌++◌, append_assoc, Lacks, Option, some, length, length-append, set, set-append,
  length-replicate, drop-replicate, ltb, leb, ◌==◌, arith, Bool-cases, ◌⊎◌, inl, inr,
}
use uefi_toolkit_pkg.UefiConsole.InputLine.{Editor, put_char, type_char}
use uefi_toolkit_pkg.UefiConsole.InputLine.Buffer.{
  overwrite_at, nuls, set-overwrite_at, overwrite_at_end, length-overwrite_at_inside,
  Lacks-overwrite_at,
}
use uefi_toolkit_pkg.UefiConsole.InputLine.Edited.{Line, type_line, Represents, Changed, kept_pos}

module _ (max_str : ℕ) (history : List (List ℕ)) where
  -- A part of a round that leads to a line: the text is there, with or without its length.
  pub record Leads (o : Option Editor) (a : Line) : Type 0 where
    pub editor : Editor
    pub ends : o ≡ some editor
    pub holds : Represents max_str history editor a ⊎ Changed max_str history editor a

  -- A change that leaves NULs behind the text.
  pub nuls-Changed :
      (e : Editor) (a : Line) (place k : ℕ)
      → e.update ≡ some place
      → e.text ≡ a.text ++ nuls (suc k)
      → e.delete ≤ suc k
      → e.cur_pos ≡ a.pos
      → a.pos ≤ length a.text
      → length a.text + suc k ≡ max_str
      → Lacks 0 a.text
      → e.new_pos ≡ 0
      → e.line_pos ≡ a.line_pos
      → a.line_pos ≤ length history
      → Changed max_str history e a
  nuls-Changed e a place k update text covered pos inside room lacks new line nodes =
      let blank = length-replicate {A = ℕ} k 0 in
      record {
        place = place;
        update = update;
        behind = nuls k;
        spare = suc k - e.delete;
        text = text;
        covered = omega (arith, covered, blank);
        tail = drop-replicate e.delete (suc k) zero;
        pos = kept_pos max_str history e.cur_pos a.pos (length a.text) pos inside;
        inside = inside;
        room = omega (arith, room, blank);
        lacks = lacks;
        new = new;
        line = line;
        nodes = nodes;
      }

  -- The text with a character put at the cursor, where there is room for it.
  typed_text :
      (t : List ℕ) (k i c : ℕ)
      → i ≤ length t
      → (i < length t) ⊎ (0 < k)
      → (k' : ℕ) × (set (t ++ nuls (suc k)) i c ≡ overwrite_at t i c ++ nuls (suc k'))
        × (length (overwrite_at t i c) + suc k' ≡ length t + suc k)
        × (i < length (overwrite_at t i c))
  typed_text t k i c low (inl inside) =
      let n = length-overwrite_at_inside t i c inside in
      (k, set-overwrite_at t (nuls (suc k)) i c inside, omega (arith, n), omega (arith, n, inside))
  typed_text t zero i c low (inr room) = absurd (omega arith)
  typed_text t (suc k) i c low (inr room) = elim (Bool-cases (ltb i (length t))) [
    | inl less ↦
        let inside : i < length t = ground (arith, less) in
        let n = length-overwrite_at_inside t i c inside in
        (
          suc k,
          set-overwrite_at t (nuls (suc (suc k))) i c inside,
          omega (arith, n),
          omega (arith, n, inside),
        )
    | inr more ↦
        let at_end : i ≡ length t = ground (arith, more, low) in
        let whole = overwrite_at_end t i c at_end in
        let n : length (overwrite_at t i c) ≡ length t + 1 =
          ap length whole ∙ length-append t (c ∷ []) in
        let put : set (t ++ nuls (suc (suc k))) i c ≡ overwrite_at t i c ++ nuls (suc k) =
          ap (λ j. set (t ++ nuls (suc (suc k))) j c) at_end
          ∙ set-append t (nuls (suc k)) 0 c
          ∙ sym (append_assoc t (c ∷ []) (nuls (suc k)))
          ∙ ap (λ s. s ++ nuls (suc k)) (sym whole) in
        (k, put, omega (arith, n), omega (arith, n, at_end))
  ]

  pub put_char_inside : (s : List ℕ) (i c : ℕ) → i < length s → put_char s i c ≡ some (set s i c)
  unfolding put_char
  put_char_inside s i c h = ground (arith, h)

  type_char-typed :
      (e : Editor) (c : ℕ)
      → leb 32 c ≡ true
      → (e.string_len == max_str - 1 && e.cur_pos == e.string_len) ≡ false
      → put_char e.text e.cur_pos c ≡ some (set e.text e.cur_pos c)
      → type_char max_str history e c
        ≡ some (record e {
          text = set e.text e.cur_pos c;
          update = some e.cur_pos;
          cur_pos = e.cur_pos + 1;
        })
  unfolding type_char
  type_char-typed e c shown room put = rw (shown, room, put) refl

  type_line-typed :
      (a : Line) (c : ℕ)
      → leb 32 c ≡ true
      → (length a.text == max_str - 1 && a.pos == length a.text) ≡ false
      → type_line max_str history a c
        ≡ record a { text = overwrite_at a.text a.pos c; pos = a.pos + 1 }
  unfolding type_line
  type_line-typed a c shown room = rw (shown, room) refl

  type_char_still :
      (e : Editor) (a : Line) (c : ℕ)
      → leb 32 c ≡ false
      → (type_char max_str history e c ≡ some e) × (type_line max_str history a c ≡ a)
  unfolding type_char type_line
  type_char_still e a c hidden = (rw hidden refl, rw hidden refl)

  type_char_full :
      (e : Editor) (a : Line) (c : ℕ)
      → (e.string_len == max_str - 1 && e.cur_pos == e.string_len) ≡ true
      → (length a.text == max_str - 1 && a.pos == length a.text) ≡ true
      → leb 32 c ≡ true
      → (type_char max_str history e c ≡ some e) × (type_line max_str history a c ≡ a)
  unfolding type_char type_line
  type_char_full e a c full full_line shown = (rw (shown, full) refl, rw (shown, full_line) refl)

  full_same :
      (e : Editor) (a : Line)
      → Represents max_str history e a
      → (e.string_len == max_str - 1 && e.cur_pos == e.string_len)
        ≡ (length a.text == max_str - 1 && a.pos == length a.text)
  full_same e a r = ap₂ (λ n i. n == max_str - 1 && i == n) r.len r.pos

  not_full :
      (n m i k : ℕ) → (n == m - 1 && i == n) ≡ false → i ≤ n → n + suc k ≡ m → (i < n) ⊎ (0 < k)
  not_full n m i k room inside whole = ground (arith, room, inside, whole)

  pub type_char-Leads :
      (e : Editor) (a : Line) (c : ℕ)
      → Represents max_str history e a
      → Leads (type_char max_str history e c) (type_line max_str history a c)
  type_char-Leads e a c r = elim (Bool-cases (leb 32 c)) [
    | inr hidden ↦ still (type_char_still e a c hidden)
    | inl shown ↦ elim (Bool-cases (length a.text == max_str - 1 && a.pos == length a.text)) [
      | inl full ↦ still (type_char_full e a c (full_same e a r ∙ full) full shown)
      | inr room ↦ typed shown room
    ]
  ]
    where
      still :
          (type_char max_str history e c ≡ some e) × (type_line max_str history a c ≡ a)
          → Leads (type_char max_str history e c) (type_line max_str history a c)
      still h = record {
        editor = e;
        ends = h.0;
        holds = inl (subst (Represents max_str history e) (sym h.1) r);
      }

      typed :
          leb 32 c ≡ true
          → (length a.text == max_str - 1 && a.pos == length a.text) ≡ false
          → Leads (type_char max_str history e c) (type_line max_str history a c)
      typed shown room =
          let blank = length-replicate {A = ℕ} (suc r.spare) 0 in
          let size = ap length r.text ∙ length-append a.text (nuls (suc r.spare)) in
          let place : e.cur_pos < length e.text = omega (arith, size, blank, r.pos, r.inside) in
          let put = put_char_inside e.text e.cur_pos c place in
          let text =
            typed_text a.text r.spare a.pos c r.inside
              (not_full (length a.text) max_str a.pos r.spare room r.inside r.room) in
          let low : 32 ≤ c = ground (arith, shown) in
          let done : Line = record a { text = overwrite_at a.text a.pos c; pos = a.pos + 1 } in
          let after : Editor = record e {
            text = set e.text e.cur_pos c;
            update = some e.cur_pos;
            cur_pos = e.cur_pos + 1;
          } in
          let changed : Changed max_str history after done =
            nuls-Changed after done e.cur_pos text.0 refl
              (ap₂ (λ s i. set s i c) r.text r.pos ∙ text.1) (omega (arith, r.delete))
              (ap (λ n. n + 1) r.pos) (omega (arith, text.3)) (omega (arith, text.2, r.room))
              (Lacks-overwrite_at a.text a.pos c r.lacks low) r.new r.line r.nodes in
          record {
            editor = after;
            ends = type_char-typed e c shown (full_same e a r ∙ room) put;
            holds = inr (
                subst (Changed max_str history after) (sym (type_line-typed a c shown room))
                  changed);
          }
