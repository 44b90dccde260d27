-- ===== src/UefiConsole/InRead/History.antt =====
-- The history of UefiConsole.c holds the newest lines.
use uefi_toolkit_pkg.Base.{
  ℕ, zero, suc, ◌+◌, ◌-◌, ◌≤◌, ◌≡◌, ◌∙◌, refl, sym, ap, true, List, [], ◌∷◌, ◌++◌, append_assoc,
  append-nil, length, length-append, length-drop, drop, ltb, arith, Bool-cases, inl, inr,
}
use uefi_toolkit_pkg.UefiConsole.InRead.{add_line_to_command_history, max_history_cmd_count}

abbrev Lines : Type 0
Lines = List (List ℕ)

-- The last `n` of a list.
unfoldable pub newest : ℕ → Lines → Lines
newest n ls = drop (length ls - n) ls

drop-append_le : (xs ys : Lines) (k : ℕ) → k ≤ length xs → drop k (xs ++ ys) ≡ drop k xs ++ ys
drop-append_le xs ys zero h = refl
drop-append_le [] ys (suc k) h = absurd (omega arith)
drop-append_le (x ∷ xs) ys (suc k) h = drop-append_le xs ys k (omega arith)

drop_one : (xs : Lines) (k : ℕ) → drop 1 (drop k xs) ≡ drop (suc k) xs
drop_one [] zero = refl
drop_one [] (suc k) = refl
drop_one (x ∷ xs) zero = refl
drop_one (x ∷ xs) (suc k) = drop_one xs k

add_newest :
    (ls : Lines) (l : List ℕ)
    → add_line_to_command_history true true (newest max_history_cmd_count ls) l
      ≡ newest max_history_cmd_count (ls ++ l ∷ [])
unfolding add_line_to_command_history newest
add_newest ls l =
    let size = length-append ls (l ∷ []) in
    let kept = length-drop (length ls - 32) ls in
    elim (Bool-cases (ltb (length (drop (length ls - 32) ls)) 32)) [
      | inl room ↦
          let none_old : length ls - 32 ≡ 0 = ground (arith, room, kept) in
          let none_new : length (ls ++ l ∷ []) - 32 ≡ 0 = ground (arith, room, kept, size) in
          rw room (
            ap (λ k. drop k ls ++ l ∷ []) none_old ∙ sym (ap (λ k. drop k (ls ++ l ∷ [])) none_new))
      | inr full ↦
          let low : length ls - 32 + 1 ≤ length ls = ground (arith, full, kept) in
          let one : length (ls ++ l ∷ []) - 32 ≡ suc (length ls - 32) =
            ground (arith, full, kept, size) in
          rw full (
            ap (λ s. s ++ l ∷ []) (drop_one ls (length ls - 32))
            ∙ sym (drop-append_le ls (l ∷ []) (suc (length ls - 32)) (omega (arith, low)))
            ∙ sym (ap (λ k. drop k (ls ++ l ∷ [])) one))
    ]

-- The history after some lines were added, with room for each.
unfoldable pub add_lines : Lines → Lines → Lines
add_lines history [] = history
add_lines history (l ∷ ls) = add_lines (add_line_to_command_history true true history l) ls

add_lines-newest_from :
    (ls old : Lines)
    → add_lines (newest max_history_cmd_count old) ls ≡ newest max_history_cmd_count (old ++ ls)
unfolding add_lines
add_lines-newest_from [] old = ap (newest max_history_cmd_count) (sym (append-nil old))
add_lines-newest_from (l ∷ ls) old =
    ap (λ h. add_lines h ls) (add_newest old l)
    ∙ add_lines-newest_from ls (old ++ l ∷ [])
    ∙ ap (newest max_history_cmd_count) (append_assoc old (l ∷ []) ls)

newest-nil : newest max_history_cmd_count [] ≡ []
unfolding newest
newest-nil = refl

-- After AddLineToCommandHistory was called with some lines, with room for each, on an empty history,
-- this holds the newest 32 of them, or all if there are fewer, in the order in which they came.
pub add_lines-newest : (ls : List (List ℕ)) → add_lines [] ls ≡ newest max_history_cmd_count ls
add_lines-newest ls = ap (λ h. add_lines h ls) (sym newest-nil) ∙ add_lines-newest_from ls []
