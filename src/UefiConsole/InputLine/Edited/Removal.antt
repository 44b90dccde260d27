-- ===== src/UefiConsole/InputLine/Edited/Removal.antt =====
-- Backspace and Delete in UefiConsoleInRead.
use uefi_toolkit_pkg.Base.{
  ℕ, zero, suc, ◌-◌, ◌≤◌, ◌<◌, ◌≡◌, ◌∙◌, refl, sym, ap, ap₂, List, [], ◌∷◌, ◌++◌, some, length, ltb,
  arith, Bool-cases, inl, inr,
}
use uefi_toolkit_pkg.UefiConsole.InputLine.{Editor, copy_down, delete_at}
use uefi_toolkit_pkg.UefiConsole.InputLine.Buffer.{
  remove_at, nuls, length-remove_at, Lacks-remove_at, copy_down-remove_at,
}
use uefi_toolkit_pkg.UefiConsole.InputLine.Edited.{Line, Represents}
use uefi_toolkit_pkg.UefiConsole.InputLine.Edited.Keys.{Leads, nuls-Changed}

pub remove_at_end : (s : List ℕ) (i : ℕ) → length s ≤ i → remove_at s i ≡ s
unfolding remove_at
remove_at_end [] i h = refl
remove_at_end (x ∷ s) zero h = absurd (omega arith)
remove_at_end (x ∷ s) (suc i) h = ap (◌∷◌ x) (remove_at_end s i (omega arith))

copy_down_none : (s : List ℕ) (i n : ℕ) → n ≡ 0 → copy_down s i n ≡ some s
unfolding copy_down
copy_down_none s i n h = ground (arith, h)

module _ (max_str : ℕ) (history : List (List ℕ)) where
  delete_at_copied :
      (e : Editor) (i : ℕ) (s : List ℕ)
      → copy_down e.text i (e.string_len - i) ≡ some s
      → delete_at max_str history e i
        ≡ some (record e { text = s; cur_pos = i; update = some i; delete = 1 })
  unfolding delete_at
  delete_at_copied e i s copied = rw copied refl

  -- The character at `i` is taken out, or there is none.
  pub delete_at-Leads :
      (e : Editor) (a : Line) (i : ℕ)
      → Represents max_str history e a
      → i ≤ length a.text
      → Leads max_str history
          (delete_at max_str history e i)
          (record a { text = remove_at a.text i; pos = i })
  delete_at-Leads e a i r low = elim (Bool-cases (ltb i (length a.text))) [
    | inl less ↦ inside (ground (arith, less))
    | inr more ↦ at_end (ground (arith, more, low))
  ]
    where
      done : Line
      done = record a { text = remove_at a.text i; pos = i }

      inside : i < length a.text → Leads max_str history (delete_at max_str history e i) done
      inside h =
          let copied =
            ap₂ (λ s n. copy_down s i (n - i)) r.text r.len
            ∙ copy_down-remove_at a.text (nuls r.spare) i h in
          let n = length-remove_at a.text i h in
          let after : Editor = record e {
            text = remove_at a.text i ++ nuls (suc (suc r.spare));
            cur_pos = i;
            update = some i;
            delete = 1;
          } in
          record {
            editor = after;
            ends = delete_at_copied e i (remove_at a.text i ++ nuls (suc (suc r.spare))) copied;
            holds = inr (
                nuls-Changed max_str history after done i (suc r.spare) refl refl (omega arith) refl
                  (omega (arith, n, h)) (omega (arith, n, r.room))
                  (Lacks-remove_at a.text i r.lacks) r.new r.line r.nodes);
          }

      at_end : i ≡ length a.text → Leads max_str history (delete_at max_str history e i) done
      at_end h =
          let none_left : e.string_len - i ≡ 0 = omega (arith, r.len, h) in
          let copied = copy_down_none e.text i (e.string_len - i) none_left in
          let same = remove_at_end a.text i (omega (arith, h)) in
          let after : Editor = record e {
            text = e.text;
            cur_pos = i;
            update = some i;
            delete = 1;
          } in
          record {
            editor = after;
            ends = delete_at_copied e i e.text copied;
            holds = inr (
                nuls-Changed max_str history after done i r.spare refl
                  (r.text ∙ ap (λ s. s ++ nuls (suc r.spare)) (sym same)) (omega arith) refl
                  (omega (arith, h, ap length same)) (omega (arith, r.room, ap length same))
                  (Lacks-remove_at a.text i r.lacks) r.new r.line r.nodes);
          }
