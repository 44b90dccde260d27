-- ===== src/UefiConsole/InputLine/Edited/Replaced.antt =====
-- Escape, and the lines of the history, in UefiConsoleInRead.
use uefi_toolkit_pkg.Base.{
  ℕ, zero, suc, ◌+◌, ◌-◌, ◌≤◌, ◌<◌, ◌≡◌, ◌∙◌, refl, sym, ap, ap₂, subst, true, false, List, [], ◌∷◌,
  ◌++◌, All, Lacks, some, get_or, length, length-append, set, set-append, take, drop, length-take,
  length-drop, length-replicate, drop-append_add, drop-replicate, ltb, leb, ◌==◌, if◌then◌else◌,
  arith, Bool-cases, inl, inr,
}
use uefi_toolkit_pkg.UefiConsole.InputLine.{Editor, put_char, recall}
use uefi_toolkit_pkg.UefiConsole.InputLine.Buffer.{nuls, drop_cons}
use uefi_toolkit_pkg.UefiConsole.InputLine.Edited.{Line, recall_line, Represents, Changed}
use uefi_toolkit_pkg.UefiConsole.InputLine.Edited.Keys.{Leads, put_char_inside}

drop-drop : (s : List ℕ) (m n p : ℕ) → p ≡ m + n → drop n (drop m s) ≡ drop p s
drop-drop s zero n p h = let e : n ≡ p = omega (arith, h) in ap (λ k. drop k s) e
drop-drop [] (suc m) zero zero h = refl
drop-drop [] (suc m) zero (suc p) h = refl
drop-drop [] (suc m) (suc n) zero h = refl
drop-drop [] (suc m) (suc n) (suc p) h = refl
drop-drop (x ∷ s) (suc m) n zero h = absurd (omega (arith, h))
drop-drop (x ∷ s) (suc m) n (suc p) h = drop-drop s m n p (omega (arith, h))

-- What is behind a new text, past as many characters as the old text was longer: NULs.
tail_nuls :
    (t : List ℕ) (k l d : ℕ)
    → d ≡ length t - l
    → (n : ℕ) × (drop d (0 ∷ drop (suc l) (t ++ nuls (suc k))) ≡ nuls n)
tail_nuls t k l zero h =
    let j : suc l ≡ length t + (suc l - length t) = omega (arith, h) in
    (
      suc (suc k - (suc l - length t)),
      ap (◌∷◌ 0) (
          drop-append_add t (nuls (suc k)) (suc l) (suc l - length t) j
          ∙ drop-replicate (suc l - length t) (suc k) zero),
    )
tail_nuls t k l (suc d) h =
    let p : length t ≡ suc l + d = omega (arith, h) in
    let q : length t ≡ length t + 0 = omega arith in
    (
      suc k,
      drop-drop (t ++ nuls (suc k)) (suc l) d (length t) p
          ∙ drop-append_add t (nuls (suc k)) (length t) 0 q,
    )

take_cut : (s : List ℕ) (n : ℕ) → take (if ltb (length s) n then length s else n) s ≡ take n s
take_cut s n = elim (Bool-cases (ltb (length s) n)) [
  | inl short ↦
      let h : length s ≤ n = ground (arith, short) in
      rw short (take_all s (length s) (omega arith) ∙ sym (take_all s n h))
  | inr long ↦ rw long refl
]
  where
    take_all : (s : List ℕ) (n : ℕ) → length s ≤ n → take n s ≡ s
    take_all [] zero h = refl
    take_all [] (suc n) h = refl
    take_all (x ∷ s) zero h = absurd (omega arith)
    take_all (x ∷ s) (suc n) h = ap (◌∷◌ x) (take_all s n (omega arith))

Lacks-take : (s : List ℕ) (n : ℕ) → Lacks 0 s → Lacks 0 (take n s)
Lacks-take s zero h = tt
Lacks-take [] (suc n) h = tt
Lacks-take (x ∷ s) (suc n) h = (h.0, Lacks-take s n h.1)

Lacks-get_or : (ls : List (List ℕ)) (i : ℕ) → All (Lacks 0) ls → Lacks 0 (get_or ls i [])
Lacks-get_or [] i h = tt
Lacks-get_or (l ∷ ls) zero h = h.0
Lacks-get_or (l ∷ ls) (suc i) h = Lacks-get_or ls i h.1

-- A NUL behind the first `l` characters of a line that were copied over the buffer.
put_nul :
    (line s : List ℕ) (l : ℕ)
    → l ≤ length line
    → l < length s
    → put_char (take l line ++ drop l s) l 0 ≡ some (take l line ++ 0 ∷ drop (suc l) s)
put_nul line s l short inside =
    let (x, split) = drop_cons s l inside in
    let n : l ≡ length (take l line) = omega (arith, length-take l line, short) in
    let whole = length-append (take l line) (drop l s) in
    let room : l < length (take l line ++ drop l s) =
      omega (arith, whole, n, length-drop l s, inside) in
    put_char_inside 0 [] (take l line ++ drop l s) l 0 room
    ∙ ap some (
        ap₂ (λ z i. set (take l line ++ z) i 0) split n
        ∙ set-append (take l line) (drop (suc l) s) x 0)

module _ (max_str : ℕ) (history : List (List ℕ)) where
  -- A new text at the start of the buffer that held a line.
  pub drop-Changed :
      (e r_editor : Editor) (a b : Line) (place : ℕ)
      → Represents max_str history r_editor b
      → e.update ≡ some place
      → e.text ≡ a.text ++ 0 ∷ drop (suc (length a.text)) r_editor.text
      → length a.text < max_str
      → e.delete ≡ length b.text - length a.text
      → length a.text ≤ e.cur_pos
      → a.pos ≡ length a.text
      → Lacks 0 a.text
      → e.new_pos ≡ 0
      → e.line_pos ≡ a.line_pos
      → a.line_pos ≤ length history
      → Changed max_str history e a
  drop-Changed e old a b place r update text short delete high pos lacks new line nodes =
      let l = length a.text in
      let behind : List ℕ = drop (suc l) old.text in
      let blank = length-replicate {A = ℕ} (suc r.spare) 0 in
      let size = ap length r.text ∙ length-append b.text (nuls (suc r.spare)) in
      let n : suc (length behind) ≡ max_str - l =
        omega (arith, length-drop (suc l) old.text, size, blank, r.room, short) in
      let tail = tail_nuls b.text r.spare l e.delete delete in
      record {
        place = place;
        update = update;
        behind = behind;
        spare = tail.0;
        text = text;
        covered = omega (arith, delete, n, r.room);
        tail = ap (λ s. drop e.delete (0 ∷ drop (suc l) s)) r.text ∙ tail.1;
        pos = cut e.cur_pos l high ∙ sym pos;
        inside = omega (arith, pos);
        room = omega (arith, n, short);
        lacks = lacks;
        new = new;
        line = line;
        nodes = nodes;
      }
    where
      cut : (i l : ℕ) → l ≤ i → (if ltb l i then l else i) ≡ l
      cut i l h = ground (arith, h)

  recalled :
      (e : Editor) (n l : ℕ) (line s : List ℕ)
      → (n == 0) ≡ false
      → get_or history (n - 1) [] ≡ line
      → (if ltb (length line) (max_str - 1) then length line else max_str - 1) ≡ l
      → leb l (length e.text) ≡ true
      → put_char (take l line ++ drop l e.text) l 0 ≡ some s
      → recall max_str history (record e { new_pos = n })
        ≡ some (record e {
          text = s;
          cur_pos = l;
          update = some 0;
          delete = if ltb l e.string_len then e.string_len - l else e.delete;
          line_pos = n;
          new_pos = 0;
        })
  unfolding recall
  recalled e n l line s there same cut fits put = rw (there, same, cut, fits, put) refl

  recall_line-shown :
      (a : Line) (n : ℕ)
      → (n == 0) ≡ false
      → recall_line max_str history a n ≡ record {
        text = take (max_str - 1) (get_or history (n - 1) []);
        pos = length (take (max_str - 1) (get_or history (n - 1) []));
        line_pos = n;
      }
  unfolding recall_line
  recall_line-shown a n there = rw there refl

  pub recall-none :
      (e : Editor) (a : Line)
      → (recall max_str history (record e { new_pos = 0 }) ≡ some (record e { new_pos = 0 }))
        × (recall_line max_str history a 0 ≡ a)
  unfolding recall recall_line
  recall-none e a = (refl, refl)

  pub recall-Leads :
      (e : Editor) (a : Line) (n : ℕ)
      → Represents max_str history e a
      → All (Lacks 0) history
      → (n == 0) ≡ false
      → n ≤ length history
      → Leads max_str history
          (recall max_str history (record e { new_pos = n }))
          (recall_line max_str history a n)
  recall-Leads e a n r texts there inside =
      let line : List ℕ = get_or history (n - 1) [] in
      let l : ℕ = if ltb (length line) (max_str - 1) then length line else max_str - 1 in
      let bounds : (l ≤ length line) × (l < max_str) = cut_bounds (length line) r.room in
      let blank = length-replicate {A = ℕ} (suc r.spare) 0 in
      let size = ap length r.text ∙ length-append a.text (nuls (suc r.spare)) in
      let fits : l < length e.text = omega (arith, bounds, size, blank, r.room) in
      let put = put_nul line e.text l bounds.0 fits in
      let cut = take_cut line (max_str - 1) in
      let shown : List ℕ = take (max_str - 1) line in
      let n_shown : length shown ≡ l =
        sym (ap length cut) ∙ omega (arith, length-take l line, bounds) in
      let done : Line = record { text = shown; pos = length shown; line_pos = n } in
      let after : Editor = record e {
        text = take l line ++ 0 ∷ drop (suc l) e.text;
        cur_pos = l;
        update = some 0;
        delete = if ltb l e.string_len then e.string_len - l else e.delete;
        line_pos = n;
        new_pos = 0;
      } in
      let text : after.text ≡ shown ++ 0 ∷ drop (suc (length shown)) e.text =
        ap₂ (λ s k. s ++ 0 ∷ drop (suc k) e.text) cut (sym n_shown) in
      record {
        editor = after;
        ends =
            recalled e n l line (take l line ++ 0 ∷ drop (suc l) e.text) there refl refl
              (ground (arith, fits)) put;
        holds = inr (
            subst (Changed max_str history after) (sym (recall_line-shown a n there)) (
              drop-Changed after e done a 0 r refl text (omega (arith, n_shown, bounds))
                (deleted l e.string_len (length a.text) e.delete (length shown) r.len r.delete
                  n_shown)
                (omega (arith, n_shown)) refl
                (Lacks-take line (max_str - 1) (Lacks-get_or history (n - 1) texts)) refl refl
                inside));
      }
    where
      cut_bounds :
          (k : ℕ)
          → length a.text + suc r.spare ≡ max_str
          → ((if ltb k (max_str - 1) then k else max_str - 1) ≤ k)
            × ((if ltb k (max_str - 1) then k else max_str - 1) < max_str)
      cut_bounds k room = ground (arith, room)

      deleted : (l m t d k : ℕ) → m ≡ t → d ≡ 0 → k ≡ l → (if ltb l m then m - l else d) ≡ t - k
      deleted l m t d k e1 e2 e3 = ground (arith, e1, e2, e3)
