-- ===== src/UefiConsole/CommandLine/Trimmed.antt =====
-- TrimSpaces of Drivers/Dxe/UefiConsole/UefiConsole.c keeps what stands between the spaces.
use uefi_toolkit_pkg.Base.{
  ℕ, zero, suc, ◌-◌, ◌≤◌, ◌≡◌, refl, sym, subst, true, false, List, [], ◌∷◌, ◌++◌, All, All-append,
  length, ltb, if◌then◌else◌, Bool-cases, inl, inr, length-append, take-append, get_or-append_self,
  append_assoc, append-nil, arith,
}
use uefi_toolkit_pkg.UefiConsole.CommandLine.{is_space, trim_left, trim_right, trim_spaces}

abbrev pub IsSpace : ℕ → Type 0
IsSpace c = is_space c ≡ true

-- A text that is empty or starts with another character than a space.
abbrev pub StartsSolid : List ℕ → Type 0
StartsSolid [] = Unit
StartsSolid (c ∷ s) = is_space c ≡ false

-- A text that is empty or ends in another character than a space.
pub data EndsSolid : List ℕ → Type 0 where
  ends_empty : EndsSolid []
  ends_in : (s : List ℕ) (c : ℕ) → is_space c ≡ false → EndsSolid (s ++ c ∷ [])

-- The second text is the first one between the spaces at both of its ends.
pub data Trimmed : List ℕ → List ℕ → Type 0 where
  trimmed :
      (front t back : List ℕ)
      → All IsSpace front
      → All IsSpace back
      → StartsSolid t
      → EndsSolid t
      → Trimmed (front ++ t ++ back) t

data LeftTrimmed : List ℕ → List ℕ → Type 0 where
  left_trimmed : (front t : List ℕ) → All IsSpace front → StartsSolid t → LeftTrimmed (front ++ t) t

data RightTrimmed : List ℕ → List ℕ → Type 0 where
  right_trimmed : (t back : List ℕ) → All IsSpace back → EndsSolid t → RightTrimmed (t ++ back) t

data LastView : List ℕ → Type 0 where
  last_none : LastView []
  last_is : (s : List ℕ) (c : ℕ) → LastView (s ++ c ∷ [])

view_cons : (c : ℕ) (s : List ℕ) → LastView s → LastView (c ∷ s)
view_cons c _ last_none = last_is [] c
view_cons c _ (last_is s d) = last_is (c ∷ s) d

last_view : (s : List ℕ) → LastView s
last_view [] = last_none
last_view (c ∷ s) = view_cons c s (last_view s)

left_cons : (c : ℕ) (s t : List ℕ) → IsSpace c → LeftTrimmed s t → LeftTrimmed (c ∷ s) t
left_cons c _ _ h (left_trimmed front t hf ht) = left_trimmed (c ∷ front) t (h, hf) ht

trim_left_lem : (s : List ℕ) → LeftTrimmed s (trim_left s)
unfolding trim_left
trim_left_lem [] = left_trimmed [] [] tt tt
trim_left_lem (c ∷ s) = elim (Bool-cases (is_space c)) [
  | inl h ↦ rw h (left_cons c s (trim_left s) h (trim_left_lem s))
  | inr h ↦ rw h (left_trimmed [] (c ∷ s) tt h)
]

right_snoc : (c : ℕ) (s t : List ℕ) → IsSpace c → RightTrimmed s t → RightTrimmed (s ++ c ∷ []) t
right_snoc c _ _ h (right_trimmed t back hb ht) =
    rw (append_assoc t back (c ∷ []))
      (right_trimmed t (back ++ c ∷ []) (All-append IsSpace back (c ∷ []) hb (h, tt)) ht)

right_self : (t : List ℕ) → EndsSolid t → RightTrimmed t t
right_self t h = subst (λ s. RightTrimmed s t) (append-nil t) (right_trimmed t [] tt h)

-- The last place of a text, as the code counts it.
last_place : (s : List ℕ) (c : ℕ) → length (s ++ c ∷ []) - 1 ≡ length s
last_place s c = omega (arith, length-append s (c ∷ []))

not_empty : (s : List ℕ) (c : ℕ) → ltb 0 (length (s ++ c ∷ [])) ≡ true
not_empty s c = rw (length-append s (c ∷ [])) (ground arith)

trim_right_none : (n : ℕ) → RightTrimmed [] (trim_right n [])
unfolding trim_right
trim_right_none zero = right_self [] ends_empty
trim_right_none (suc n) = right_self [] ends_empty

pub trim_right_step :
    (n : ℕ) (s : List ℕ) (c : ℕ)
    → trim_right (suc n) (s ++ c ∷ []) ≡ (if is_space c then trim_right n s else s ++ c ∷ [])
unfolding trim_right
trim_right_step n s c =
    rw (not_empty s c, last_place s c, take-append s (c ∷ []), get_or-append_self s [] c 0) refl

trim_right_view :
    (n : ℕ) (s : List ℕ)
    → ((t : List ℕ) → length t ≤ n → RightTrimmed t (trim_right n t))
    → LastView s
    → length s ≤ suc n
    → RightTrimmed s (trim_right (suc n) s)
trim_right_view n _ rest last_none h = trim_right_none (suc n)
trim_right_view n _ rest (last_is s c) h = elim (Bool-cases (is_space c)) [
  | inl space ↦
      rw (trim_right_step n s c, space)
        (right_snoc c s (trim_right n s) space
          (rest s (omega (arith, h, length-append s (c ∷ [])))))
  | inr solid ↦ rw (trim_right_step n s c, solid) (right_self (s ++ c ∷ []) (ends_in s c solid))
]

trim_right_lem : (n : ℕ) (s : List ℕ) → length s ≤ n → RightTrimmed s (trim_right n s)
trim_right_lem zero [] h = trim_right_none zero
trim_right_lem zero (c ∷ s) h = absurd (ground (arith, h))
trim_right_lem (suc n) s h = trim_right_view n s (trim_right_lem n) (last_view s) h

starts-append : (t back : List ℕ) → StartsSolid (t ++ back) → StartsSolid t
starts-append [] back h = tt
starts-append (c ∷ t) back h = h

both_ends :
    (front u s t : List ℕ)
    → All IsSpace front
    → StartsSolid u
    → s ≡ front ++ u
    → RightTrimmed u t
    → Trimmed s t
both_ends front _ s _ hf hs same (right_trimmed t back hb ht) =
    rw (same, sym (append_assoc front t back))
      (trimmed front t back hf hb (starts-append t back hs) ht)

trim_spaces_left : (s u : List ℕ) → LeftTrimmed s u → Trimmed s (trim_right (length u) u)
trim_spaces_left _ _ (left_trimmed front u hf hu) =
    both_ends front u (front ++ u) (trim_right (length u) u) hf hu refl
      (trim_right_lem (length u) u (omega arith))

-- For every string, TrimSpaces ends, and what it leaves is the string without the spaces and tabs
-- at its two ends: it neither starts nor ends with one, and only such characters are gone.
pub trim_spaces-Trimmed : (s : List ℕ) → Trimmed s (trim_spaces s)
unfolding trim_spaces
trim_spaces-Trimmed s = trim_spaces_left s (trim_left s) (trim_left_lem s)
