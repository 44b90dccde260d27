-- ===== src/Examples/UefiTool.antt =====
-- A command line for Application/UefiTool/UefiTool.c.
use uefi_toolkit_pkg.Base.{
  ℕ, zero, suc, ◌+◌, ◌-◌, ◌*◌, ◌≡◌, refl, false, List, [], ◌∷◌, Bytes, codes, same_text, inr,
  success,
}
use uefi_toolkit_pkg.UefiTool.{
  start, parsed, is, str_upr, to_upper, read_options, option_loop, option_step, parse_arguments,
  memory_step,
}
use uefi_toolkit_pkg.UefiTool.Ends.{Checked}

-- The number that two digits stand for.
abbrev hex : List ℕ → ℕ
hex (a ∷ b ∷ []) = 16 * (a - 48) + (b - 48)
hex _ = 0

abbrev words : List (List ℕ)
words = codes "UefiTool" ∷ codes "rdmsr" ∷ codes "10" ∷ codes "-a" ∷ []

abbrev Unlike : ℕ → Bytes → Type 0
Unlike i word = is hex same_text words i word ≡ false

never : (i : ℕ) → Unlike i (codes "-W") × Unlike i (codes "-WMM") × Unlike i (codes "-WT")
unfolding str_upr to_upper same_text
never zero = (refl, refl, refl)
never (suc zero) = (refl, refl, refl)
never (suc (suc zero)) = (refl, refl, refl)
never (suc (suc (suc zero))) = (refl, refl, refl)
never (suc (suc (suc (suc i)))) = (refl, refl, refl)

words-Checked : Checked hex same_text words
words-Checked = record {
  width = λ i. (never i).0;
  write = λ i. (never i).1;
  write_test = λ i. (never i).2;
}

words_run :
    parse_arguments hex same_text words success
    ≡ inr (parsed (record start { opcode = 9; msr_index = 16 }))
unfolding parse_arguments read_options option_loop option_step memory_step str_upr to_upper
    same_text
words_run = refl
