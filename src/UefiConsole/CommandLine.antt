-- ===== src/UefiConsole/CommandLine.antt =====
-- TrimSpaces and FindFirstCharacter of Drivers/Dxe/UefiConsole/UefiConsole.c, on the text in front
-- of a string's NUL, of fewer than 2 ^ 32 - 1 characters.
pub mod Arguments
pub mod Next
pub mod Trimmed
use uefi_toolkit_pkg.Base.{
  ℕ, zero, suc, ◌+◌, ◌-◌, Bool, true, false, ◌&&◌, ◌||◌, List, [], ◌∷◌, length, take, get_or, ltb,
  ◌==◌, if◌then◌else◌,
}

unfoldable pub is_space : ℕ → Bool
is_space c = c == 32 || c == 9

-- The loop at the beginning: CopyMem moves the rest of the string one place down.
unfoldable pub trim_left : List ℕ → List ℕ
trim_left [] = []
trim_left (c ∷ s) = let rest = trim_left s in if is_space c then rest else c ∷ s

-- The loop at the end, which writes a NUL over the last character; on fuel.
unfoldable pub trim_right : ℕ → List ℕ → List ℕ
trim_right zero s = s
trim_right (suc n) s =
    let rest = trim_right n (take (length s - 1) s) in
    if ltb 0 (length s) && is_space (get_or s (length s - 1) 0) then rest else s

unfoldable pub trim_spaces : List ℕ → List ℕ
trim_spaces s = let t = trim_left s in trim_right (length t) t

-- The inner loop over CharacterList.
unfoldable pub is_listed : List ℕ → ℕ → Bool
is_listed [] c = false
is_listed (d ∷ list) c = c == d || is_listed list c

module _ (list : List ℕ) (escape : ℕ) where
  -- The outer loop, behind an escape character or not.
  unfoldable pub walk : Bool → List ℕ → List ℕ
  walk escaped [] = []
  walk true (c ∷ s) = walk false s
  walk false (c ∷ s) =
      let rest = walk (c == escape) s in
      if c == escape then rest else if is_listed list c then c ∷ s else rest

  -- The text from the pointer that is returned.
  unfoldable pub find_first_character : List ℕ → List ℕ
  find_first_character s = walk false s
