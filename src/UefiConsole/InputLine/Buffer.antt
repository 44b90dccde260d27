-- ===== src/UefiConsole/InputLine/Buffer.antt =====
-- The buffer of the input line in UefiConsole.c: a text, and NULs behind it.
use uefi_toolkit_pkg.Base.{
  ℕ, zero, suc, ◌+◌, ◌-◌, ◌≤◌, ◌<◌, ◌≡◌, ◌∙◌, refl, ap, ap₂, true, false, List, [], ◌∷◌, ◌++◌,
  append_assoc, Lacks, some, length, length-append, set, take, drop, replicate, take-append,
  drop-append, drop-append_add, ltb, leb, ◌==◌, arith,
}
use uefi_toolkit_pkg.UefiConsole.InputLine.{str_len, copy_down, set_nul}

-- A character of a text replaced, or put behind it, and one taken out.
unfoldable pub overwrite_at : List ℕ → ℕ → ℕ → List ℕ
overwrite_at [] i c = c ∷ []
overwrite_at (x ∷ s) zero c = c ∷ s
overwrite_at (x ∷ s) (suc i) c = x ∷ overwrite_at s i c

unfoldable pub remove_at : List ℕ → ℕ → List ℕ
remove_at [] i = []
remove_at (x ∷ s) zero = s
remove_at (x ∷ s) (suc i) = x ∷ remove_at s i

abbrev pub nuls : ℕ → List ℕ
nuls n = replicate n 0

pub length-overwrite_at_inside :
    (s : List ℕ) (i c : ℕ) → i < length s → length (overwrite_at s i c) ≡ length s
unfolding overwrite_at
length-overwrite_at_inside [] i c h = absurd (omega arith)
length-overwrite_at_inside (x ∷ s) zero c h = refl
length-overwrite_at_inside (x ∷ s) (suc i) c h =
    ap suc (length-overwrite_at_inside s i c (omega arith))

pub overwrite_at_end : (s : List ℕ) (i c : ℕ) → i ≡ length s → overwrite_at s i c ≡ s ++ c ∷ []
unfolding overwrite_at
overwrite_at_end [] i c h = refl
overwrite_at_end (x ∷ s) zero c h = absurd (omega (arith, h))
overwrite_at_end (x ∷ s) (suc i) c h = ap (◌∷◌ x) (overwrite_at_end s i c (omega (arith, h)))

pub set-overwrite_at :
    (s z : List ℕ) (i c : ℕ) → i < length s → set (s ++ z) i c ≡ overwrite_at s i c ++ z
unfolding overwrite_at
set-overwrite_at [] z i c h = absurd (omega arith)
set-overwrite_at (x ∷ s) z zero c h = refl
set-overwrite_at (x ∷ s) z (suc i) c h = ap (◌∷◌ x) (set-overwrite_at s z i c (omega arith))

pub Lacks-overwrite_at : (s : List ℕ) (i c : ℕ) → Lacks 0 s → 32 ≤ c → Lacks 0 (overwrite_at s i c)
unfolding overwrite_at
Lacks-overwrite_at [] i c h low = (λ e. omega (arith, e, low), tt)
Lacks-overwrite_at (x ∷ s) zero c h low = (λ e. omega (arith, e, low), h.1)
Lacks-overwrite_at (x ∷ s) (suc i) c h low = (h.0, Lacks-overwrite_at s i c h.1 low)

pub length-remove_at : (s : List ℕ) (i : ℕ) → i < length s → suc (length (remove_at s i)) ≡ length s
unfolding remove_at
length-remove_at [] i h = absurd (omega arith)
length-remove_at (x ∷ s) zero h = refl
length-remove_at (x ∷ s) (suc i) h = ap suc (length-remove_at s i (omega arith))

pub Lacks-remove_at : (s : List ℕ) (i : ℕ) → Lacks 0 s → Lacks 0 (remove_at s i)
unfolding remove_at
Lacks-remove_at [] i h = tt
Lacks-remove_at (x ∷ s) zero h = h.1
Lacks-remove_at (x ∷ s) (suc i) h = (h.0, Lacks-remove_at s i h.1)

take_one_more : (s z : List ℕ) (n : ℕ) → n ≡ suc (length s) → take n (s ++ 0 ∷ z) ≡ s ++ 0 ∷ []
take_one_more [] z zero h = absurd (omega (arith, h))
take_one_more [] z (suc zero) h = refl
take_one_more [] z (suc (suc n)) h = absurd (omega (arith, h))
take_one_more (x ∷ s) z zero h = absurd (omega (arith, h))
take_one_more (x ∷ s) z (suc n) h = ap (◌∷◌ x) (take_one_more s z n (omega (arith, h)))

-- The three parts of the buffer after the move.
moved_down :
    (s z : List ℕ) (i count past : ℕ)
    → i < length s
    → count + i ≡ length s
    → past ≡ length s
    → take i (s ++ 0 ∷ z) ++ take count (drop (suc i) (s ++ 0 ∷ z)) ++ drop past (s ++ 0 ∷ z)
      ≡ remove_at s i ++ 0 ∷ 0 ∷ z
unfolding remove_at
moved_down [] z i count past h size all = absurd (omega arith)
moved_down (x ∷ s) z zero count zero h size all = absurd (omega (arith, all))
moved_down (x ∷ s) z zero count (suc past) h size all =
    let front = take_one_more s z count (omega (arith, size)) in
    let n : past ≡ length s = omega (arith, all) in
    let behind : drop past (s ++ 0 ∷ z) ≡ 0 ∷ z =
      ap (λ k. drop k (s ++ 0 ∷ z)) n ∙ drop-append s (0 ∷ z) in
    ap₂ ◌++◌ front behind ∙ append_assoc s (0 ∷ []) (0 ∷ z)
moved_down (x ∷ s) z (suc i) count zero h size all = absurd (omega (arith, all))
moved_down (x ∷ s) z (suc i) count (suc past) h size all =
    ap (◌∷◌ x)
      (moved_down s z i count past (omega arith) (omega (arith, size)) (omega (arith, all)))

pub copy_down-remove_at :
    (s z : List ℕ) (i : ℕ)
    → i < length s
    → copy_down (s ++ 0 ∷ z) i (length s - i) ≡ some (remove_at s i ++ 0 ∷ 0 ∷ z)
unfolding copy_down
copy_down-remove_at s z i h =
    let some_left : (length s - i == 0) ≡ false = ground (arith, h) in
    let fits : ltb (i + (length s - i)) (length (s ++ 0 ∷ z)) ≡ true =
      ground (arith, h, length-append s (0 ∷ z)) in
    let moved =
      moved_down s z i (length s - i) (i + (length s - i)) h (omega (arith, h))
        (omega (arith, h)) in
    rw (some_left, fits) (ap some moved)

pub str_len-text : (s z : List ℕ) → Lacks 0 s → str_len (s ++ 0 ∷ z) ≡ some (length s)
unfolding str_len
str_len-text [] z h = refl
str_len-text (x ∷ s) z h =
    let other = h.0 in
    let rest = str_len-text s z h.1 in
    let plain : (x == 0) ≡ false = ground (arith, other) in rw (plain, rest) refl

pub nuls-append : (m n k : ℕ) → m + n ≡ k → nuls m ++ nuls n ≡ nuls k
nuls-append zero n k h = let e : n ≡ k = omega (arith, h) in ap nuls e
nuls-append (suc m) n zero h = absurd (omega (arith, h))
nuls-append (suc m) n (suc k) h = ap (◌∷◌ 0) (nuls-append m n k (omega (arith, h)))

-- NULs set behind a text leave it as it is, whatever they cover, if what follows is NULs.
pub set_nul-behind :
    (s z : List ℕ) (d k : ℕ)
    → drop d z ≡ nuls k
    → d ≤ length z
    → set_nul (s ++ z) (length s) d ≡ some (s ++ nuls (d + k))
unfolding set_nul
set_nul-behind s z d k rest fits =
    let inside : leb (length s + d) (length (s ++ z)) ≡ true =
      ground (arith, fits, length-append s z) in
    let behind = drop-append_add s z (length s + d) d refl in
    let parts : take (length s) (s ++ z) ++ nuls d ++ drop (length s + d) (s ++ z)
        ≡ s ++ nuls d ++ nuls k =
      ap₂ (λ a b. a ++ nuls d ++ b) (take-append s z) (behind ∙ rest) in
    rw inside (
      ap some (
        parts ∙ append_assoc s (nuls d) (nuls k) ∙ ap (λ x. s ++ x) (nuls-append d k (d + k) refl)))

pub drop_cons : (s : List ℕ) (n : ℕ) → n < length s → (x : ℕ) × (drop n s ≡ x ∷ drop (suc n) s)
drop_cons [] n h = absurd (omega arith)
drop_cons (x ∷ s) zero h = (x, refl)
drop_cons (x ∷ s) (suc n) h = drop_cons s n (omega arith)
