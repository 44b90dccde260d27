-- ===== src/Examples/DebugShell.antt =====
-- Concrete inputs for the debug shell of Library/DebugShellLib/DebugShellLib.c.
use uefi_toolkit_pkg.Base.{
  ℕ, ◌+◌, ◌%◌, ◌^◌, ◌≡◌, ◌≢◌, ◌↔◌, refl, subst, true, [], ◌∷◌, ◌++◌, none, some, arith, Bytes, All,
  length, take, replicate, if◌then◌else◌, c_string, codes, same_text, same_text-eq, same_text_self,
  Bool-cases, inl, inr,
}
use uefi_toolkit_pkg.DebugShell.Hex.{print_hex64, parse_hex64}
use uefi_toolkit_pkg.DebugShell.Hex.Parse.{digits_of, IsHexDigit, hex_value, parse_hex64_iff}
use uefi_toolkit_pkg.DebugShell.Hex.Print.{parse_hex64-print_hex64}
use uefi_toolkit_pkg.DebugShell.Input.{read_line}
use uefi_toolkit_pkg.DebugShell.Input.Editing.{Reads, onto, type_keys, read_line-Reads}
use uefi_toolkit_pkg.DebugShell.Tokens.{tokenize}
use uefi_toolkit_pkg.DebugShell.Tokens.Words.{Finds, words}
use uefi_toolkit_pkg.DebugShell.Tokens.Loop.{tokenize-Finds}
use uefi_toolkit_pkg.DebugShell.Command.{
  World, Platform, process_command, run_debug_shell, shell_max_args,
}
use uefi_toolkit_pkg.DebugShell.Command.Effects.{asked, leaves, process_command-Does}
use uefi_toolkit_pkg.DebugShell.Command.Session.{IsSafe, run_debug_shell-IsSafe}

abbrev compare_text : Bytes → Bytes → ℕ
compare_text a b = if same_text a b then 0 else 1

compare_text_zero : (a b : Bytes) → (compare_text a b ≡ 0) ↔ (a ≡ b)
compare_text_zero a b = elim (Bool-cases (same_text a b)) [
  | inl same ↦ (λ h. same_text-eq a b same, λ h. rw same refl)
  | inr other ↦ (
    λ h. absurd (ground (arith, h)),
    λ h. absurd (ground (arith, other, subst (λ c. same_text a c ≡ true) h (same_text_self a))),
  )
]

abbrev machine : Platform
machine = record {
  msr = λ accesses index. index + 1;
  str_cmp = compare_text;
  str_cmp_zero = compare_text_zero;
}

abbrev world : World
world = record { sent = []; accesses = [] }

abbrev line : Bytes
line = codes " writemsr 0x1b\tfee00900 "

parse_hex64_iff_example : (parse_hex64 (some (codes "0x1bF")) true ≡ some 447) ↔ (
    (digits_of (codes "0x1bF") ≢ [])
    × All IsHexDigit (digits_of (codes "0x1bF"))
    × (447 ≡ hex_value 0 (digits_of (codes "0x1bF")) % 2 ^ 64))
parse_hex64_iff_example = parse_hex64_iff (codes "0x1bF") 447

parse_hex64-print_hex64_example :
    parse_hex64 (some (c_string (print_hex64 (replicate 19 0) 0xfee00900))) true ≡ some 0xfee00900
parse_hex64-print_hex64_example =
    parse_hex64-print_hex64 (replicate 19 0) 0xfee00900 refl (omega arith)

read_line-Reads_example :
    Reads 4
      (onto (type_keys 3 [] (codes "hx\u{8}el")) [])
      (codes "p")
      (read_line 4 (replicate 4 0) (codes "hx\u{8}el" ++ 0x0d ∷ codes "p") [])
read_line-Reads_example =
    read_line-Reads (replicate 4 0) (codes "hx\u{8}el") (codes "p") [] 0x0d (omega arith)
      (refl, (refl, (refl, (refl, (refl, tt))))) refl

tokenize-Finds_example : Finds [] line [] (take 2 (words (c_string line))) (tokenize line 2)
tokenize-Finds_example = tokenize-Finds line 2

process_command-Does_example :
    let ws = take shell_max_args (words (c_string line)) in
    (line' : Bytes) × (w' : World) × (process_command machine line world
      ≡ some (line', w', leaves ws))
    × (w'.accesses ≡ world.accesses ++ asked ws)
    × (length line' ≡ length line)
process_command-Does_example = process_command-Does machine line world

run_debug_shell-IsSafe_example :
    IsSafe (run_debug_shell machine none (replicate 128 0) (codes "readmsr 10\rexit\r") world)
run_debug_shell-IsSafe_example =
    run_debug_shell-IsSafe machine none (replicate 128 0) (codes "readmsr 10\rexit\r") world refl
