-- ===== src/UefiConsole/CommandLine/Next/Fuel.antt =====
-- FindEndOfParameter of Drivers/Dxe/UefiConsole/ConsoleParameters.c ends.
use uefi_toolkit_pkg.Base.{
  ℕ, zero, suc, ◌≤◌, ◌<◌, ◌≡◌, refl, Bool, true, false, List, [], ◌∷◌, Option, length, ◌==◌,
  Bool-cases, inl, inr, arith,
}
use uefi_toolkit_pkg.UefiConsole.CommandLine.{is_listed, walk, find_first_character}
use uefi_toolkit_pkg.UefiConsole.CommandLine.Next.{on_close, on_first, find_end_of_parameter}

pub walk_shrinks :
    (list : List ℕ) (escape : ℕ) (escaped : Bool) (s : List ℕ)
    → length (walk list escape escaped s) ≤ length s
unfolding walk
walk_shrinks list escape escaped [] = omega arith
walk_shrinks list escape true (c ∷ s) = omega (arith, walk_shrinks list escape false s)
walk_shrinks list escape false (c ∷ s) =
    let rest = walk_shrinks list escape (c == escape) s in
    elim (Bool-cases (c == escape)) [
      | inl same ↦ rw same (omega (arith, walk_shrinks list escape true s))
      | inr other ↦ elim (Bool-cases (is_listed list c)) [
        | inl listed ↦ rw (other, listed) (omega arith)
        | inr plain ↦ rw (other, plain) (omega (arith, walk_shrinks list escape false s))
      ]
    ]

on_close-same :
    (f g : List ℕ → Option (List ℕ)) (s : List ℕ) (b : ℕ)
    → ((t : List ℕ) → length t < b → f t ≡ g t)
    → length s ≤ b
    → on_close f s ≡ on_close g s
on_close-same f g [] b same h = refl
on_close-same f g (c ∷ s) b same h = same s (omega (arith, h))

on_first-same :
    (f g : List ℕ → Option (List ℕ)) (s : List ℕ) (b : ℕ)
    → ((t : List ℕ) → length t < b → f t ≡ g t)
    → length s ≤ b
    → on_first f s ≡ on_first g s
unfolding find_first_character
on_first-same f g [] b same h = refl
on_first-same f g (c ∷ s) b same h =
    let shorter = walk_shrinks (34 ∷ []) 94 false s in
    rw (on_close-same f g (walk (34 ∷ []) 94 false s) b same (omega (arith, h, shorter))) refl

-- For every text and any two amounts of fuel above its length, FindEndOfParameter finds the same
-- end: no call is cut off.
pub find_end_of_parameter-fuel :
    (n m : ℕ) (s : List ℕ)
    → length s < n
    → length s < m
    → find_end_of_parameter n s ≡ find_end_of_parameter m s
unfolding find_end_of_parameter find_first_character
find_end_of_parameter-fuel zero m s h k = absurd (omega arith)
find_end_of_parameter-fuel (suc n) zero s h k = absurd (omega arith)
find_end_of_parameter-fuel (suc n) (suc m) s h k =
    let shorter = walk_shrinks (32 ∷ 34 ∷ []) 94 false s in
    on_first-same (find_end_of_parameter n) (find_end_of_parameter m)
      (walk (32 ∷ 34 ∷ []) 94 false s) (length s)
      (λ t small.
        find_end_of_parameter-fuel n m t (omega (arith, h, small)) (omega (arith, k, small)))
      shorter
