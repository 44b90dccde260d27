-- ===== src/UefiConsole/InputLine/Edited/Keyboard.antt =====
-- Every key of UefiConsoleInRead edits the line that the buffer holds.
use uefi_toolkit_pkg.Base.{
  ℕ, suc, ◌-◌, ◌≤◌, ◌<◌, ◌≡◌, ◌∙◌, refl, sym, ap, subst, true, false, List, [], ◌∷◌, All, Lacks,
  Option, some, and_then, length, length-append, set, drop, length-replicate, ◌==◌, ==_iff,
  if◌then◌else◌, arith, Bool-cases, inl, inr,
}
use uefi_toolkit_pkg.UefiConsole.InputLine.{
  Editor, InputKey, put_char, delete_at, backspace, type_char, scan, on_key, edit,
}
use uefi_toolkit_pkg.UefiConsole.InputLine.Buffer.{remove_at, nuls}
use uefi_toolkit_pkg.UefiConsole.InputLine.Edited.{
  Line, type_line, scan_line, edit_line, Represents,
}
use uefi_toolkit_pkg.UefiConsole.InputLine.Edited.Keys.{Leads, put_char_inside, type_char-Leads}
use uefi_toolkit_pkg.UefiConsole.InputLine.Edited.Removal.{delete_at-Leads}
use uefi_toolkit_pkg.UefiConsole.InputLine.Edited.Replaced.{drop-Changed}
use uefi_toolkit_pkg.UefiConsole.InputLine.Edited.Round.{
  after_key, Ends, from_Leads, still, scan_delete, scan_up, scan_down, scan_left, scan_right,
  scan_home, scan_end,
}

set_first : (s : List ℕ) → 0 < length s → set s 0 0 ≡ 0 ∷ drop 1 s
set_first [] h = absurd (omega arith)
set_first (x ∷ s) h = refl

module _ (max_str : ℕ) (history : List (List ℕ)) (e : Editor) (a : Line)
    (r : Represents max_str history e a) (texts : All (Lacks 0) history) where
  abbrev Does : Option Editor → Line → Type 0
  Does o b = Ends max_str history (after_key max_str history o) b

  put_first : put_char e.text 0 0 ≡ some (0 ∷ drop 1 e.text)
  put_first =
      let blank = length-replicate {A = ℕ} (suc r.spare) 0 in
      let size = ap length r.text ∙ length-append a.text (nuls (suc r.spare)) in
      let some_room : 0 < length e.text = omega (arith, size, blank) in
      put_char_inside max_str history e.text 0 0 some_room ∙ ap some (set_first e.text some_room)

  scan_escape : Does (scan max_str history e 0x17) (scan_line max_str history a 0x17)
  unfolding scan scan_line
  scan_escape =
      let done : Line = record a { text = []; pos = 0 } in
      let after : Editor = record e {
        text = 0 ∷ drop 1 e.text;
        update = some 0;
        delete = e.string_len;
      } in
      let room : 0 < max_str = omega (arith, r.room) in
      let escaped : Leads max_str history
          (and_then (put_char e.text 0 0)
            (λ text. some (record e { text = text; update = some 0; delete = e.string_len })))
          done =
        record {
          editor = after;
          ends = rw put_first refl;
          holds = inr (
              drop-Changed max_str history after e done a 0 r refl refl room (omega (arith, r.len))
                (omega arith) refl tt r.new r.line r.nodes);
        } in
      from_Leads max_str history
        (and_then (put_char e.text 0 0)
          (λ text. some (record e { text = text; update = some 0; delete = e.string_len })))
        done escaped

  abbrev ScanDoes : ℕ → Type 0
  ScanDoes code = Does (scan max_str history e code) (scan_line max_str history a code)

  -- By the code, which is one of those in the switch or none of them.
  at_code : (code n : ℕ) → ScanDoes n → (code == n) ≡ true → ScanDoes code
  at_code code n does same = subst ScanDoes (sym ((==_iff code n).0 same)) does

  scan_other :
      (code : ℕ)
      → (code == 0x08) ≡ false
      → (code == 0x01) ≡ false
      → (code == 0x02) ≡ false
      → (code == 0x04) ≡ false
      → (code == 0x03) ≡ false
      → (code == 0x05) ≡ false
      → (code == 0x06) ≡ false
      → (code == 0x17) ≡ false
      → ScanDoes code
  unfolding scan scan_line
  scan_other code n8 n1 n2 n4 n3 n5 n6 n17 =
      rw (n8, n1, n2, n4, n3, n5, n6, n17) (still max_str history e a r texts)

  scan_does : (code : ℕ) → ScanDoes code
  scan_does code = elim (Bool-cases (code == 0x08)) [
    | inl y ↦ at_code code 0x08 (scan_delete max_str history e a r texts) y
    | inr n8 ↦ elim (Bool-cases (code == 0x01)) [
      | inl y ↦ at_code code 0x01 (scan_up max_str history e a r texts) y
      | inr n1 ↦ elim (Bool-cases (code == 0x02)) [
        | inl y ↦ at_code code 0x02 (scan_down max_str history e a r texts) y
        | inr n2 ↦ elim (Bool-cases (code == 0x04)) [
          | inl y ↦ at_code code 0x04 (scan_left max_str history e a r texts) y
          | inr n4 ↦ elim (Bool-cases (code == 0x03)) [
            | inl y ↦ at_code code 0x03 (scan_right max_str history e a r texts) y
            | inr n3 ↦ elim (Bool-cases (code == 0x05)) [
              | inl y ↦ at_code code 0x05 (scan_home max_str history e a r texts) y
              | inr n5 ↦ elim (Bool-cases (code == 0x06)) [
                | inl y ↦ at_code code 0x06 (scan_end max_str history e a r texts) y
                | inr n6 ↦ elim (Bool-cases (code == 0x17)) [
                  | inl y ↦ at_code code 0x17 scan_escape y
                  | inr n17 ↦ scan_other code n8 n1 n2 n4 n3 n5 n6 n17
                ]
              ]
            ]
          ]
        ]
      ]
    ]
  ]

  abbrev backspaced : Line
  backspaced =
      if a.pos == 0 then a else record a { text = remove_at a.text (a.pos - 1); pos = a.pos - 1 }

  backspace-Does : Does (backspace max_str history e) backspaced
  unfolding backspace
  backspace-Does =
      let same : (e.cur_pos == 0) ≡ (a.pos == 0) = ap (λ n. n == 0) r.pos in
      elim (Bool-cases (a.pos == 0)) [
        | inl start ↦ rw (same, start) (still max_str history e a r texts)
        | inr behind ↦
            let done : Line = record a { text = remove_at a.text (a.pos - 1); pos = a.pos - 1 } in
            let low : a.pos - 1 ≤ length a.text = omega (arith, r.inside) in
            let l = delete_at-Leads max_str history e a (a.pos - 1) r low in
            let at_cursor : Leads max_str history (delete_at max_str history e (e.cur_pos - 1))
                done =
              subst (λ i. Leads max_str history (delete_at max_str history e (i - 1)) done)
                (sym r.pos) l in
            rw (same, behind)
              (from_Leads max_str history (delete_at max_str history e (e.cur_pos - 1)) done
                at_cursor)
      ]

  pub edit_does :
      (key : InputKey)
      → Ends max_str history (edit max_str history e key) (edit_line max_str history a key)
  unfolding edit edit_line on_key
  edit_does key = elim (Bool-cases (key.unicode_char == 0x08)) [
    | inl back ↦ rw back backspace-Does
    | inr other ↦ elim (Bool-cases (key.unicode_char == 0)) [
      | inl control ↦ rw (other, control) (scan_does key.scan_code)
      | inr char ↦
          rw (other, char)
            (from_Leads max_str history (type_char max_str history e key.unicode_char)
              (type_line max_str history a key.unicode_char)
              (type_char-Leads max_str history e a key.unicode_char r))
    ]
  ]
