-- ===== src/DebugShell/Command.antt =====
-- ShellPrint, the command handlers, ShellProcessCommand and RunDebugShell of
-- Library/DebugShellLib/DebugShellLib.c. AsmReadMsr64 and AsciiStrCmp are parameters; what the
-- shell does to the machine is the list of its MSR accesses.
pub mod Effects
pub mod Session
use uefi_toolkit_pkg.Base.{
  ℕ, zero, suc, ◌+◌, ◌^◌, ◌≡◌, ◌↔◌, Bool, true, false, ◌||◌, List, [], ◌∷◌, ◌++◌, map, Option, none,
  some, Bytes, length, get_or, drop, replicate, ltb, ◌==◌, if◌then◌else◌, c_string, codes,
}
use uefi_toolkit_pkg.DebugShell.Hex.{print_hex64, parse_hex64}
use uefi_toolkit_pkg.DebugShell.Input.{read_line}
use uefi_toolkit_pkg.DebugShell.Tokens.{tokenize}

pub data Access : Type 0 where
  read_msr : ℕ → Access
  write_msr : ℕ → ℕ → Access

-- The bytes handed to SerialPortWrite, and the MSR accesses, oldest first.
pub record World : Type 0 where
  pub sent : Bytes
  pub accesses : List Access

-- What the shell takes from outside: `msr` is AsmReadMsr64, which may depend on the accesses
-- before it, and `str_cmp` is AsciiStrCmp, which is 0 on equal strings only.
pub record Platform : Type 0 where
  pub msr : List Access → ℕ → ℕ
  pub str_cmp : Bytes → Bytes → ℕ
  pub str_cmp_zero : (a b : Bytes) → (str_cmp a b ≡ 0) ↔ (a ≡ b)

unfoldable pub print : Bytes → World → World
print str w =
    let text = c_string str in if ltb 0 (length text) then record w { sent = w.sent ++ text } else w

-- ShellPrintHex64, over a stack buffer of zeros.
unfoldable pub show_hex64 : ℕ → World → World
show_hex64 value w = print (print_hex64 (replicate 19 0) value) w

unfoldable pub cmd_help : World → World
cmd_help w = print (codes "  exit                     - Leave debug shell and continue boot\r\n") (
    print (codes "  help                     - Show this message\r\n") (
      print (codes "  writemsr <index> <value> - Write 64-bit MSR (hex index and value)\r\n") (
        print (codes "  readmsr  <index>         - Read 64-bit MSR (hex index)\r\n")
          (print (codes "Available commands:\r\n") w))))

unfoldable pub report_bad : Bytes → Bytes → World → World
report_bad what arg w = print (codes "'\r\n") (print arg (print what w))

abbrev pub bad_index : Bytes
bad_index = codes "Error: invalid MSR index '"

abbrev pub bad_value : Bytes
bad_value = codes "Error: invalid value '"

-- `(!ShellParseHex64 (Argv[1], &Index)) || (Index > 0xFFFFFFFFULL)` fails the command.
unfoldable pub msr_index : Bytes → Option ℕ
msr_index arg = elim (parse_hex64 (some arg) true) [
  | none ↦ none
  | some index ↦ if ltb 0xffffffff index then none else some index
]

unfoldable pub cmd_read_msr : Platform → ℕ → List Bytes → World → World
cmd_read_msr p argc argv w =
    if ltb argc 2
    then print (codes "Usage: readmsr <index_hex>\r\n") w
    else elim (msr_index (get_or argv 1 [])) [
      | none ↦ report_bad bad_index (get_or argv 1 []) w
      | some index ↦
          let value = p.msr w.accesses index in
          print (codes "\r\n") (
            show_hex64 value (
              print (codes "] = ") (
                show_hex64 index (
                  print (codes "MSR[")
                    (record w { accesses = w.accesses ++ read_msr index ∷ [] })))))
    ]

unfoldable pub cmd_write_msr : ℕ → List Bytes → World → World
cmd_write_msr argc argv w =
    if ltb argc 3
    then print (codes "Usage: writemsr <index_hex> <value_hex>\r\n") w
    else elim (msr_index (get_or argv 1 [])) [
      | none ↦ report_bad bad_index (get_or argv 1 []) w
      | some index ↦ elim (parse_hex64 (some (get_or argv 2 [])) true) [
        | none ↦ report_bad bad_value (get_or argv 2 []) w
        | some value ↦ print (codes " (written)\r\n") (
            show_hex64 value (
              print (codes "] <- ") (
                show_hex64 index (
                  print (codes "MSR[")
                    (record w { accesses = w.accesses ++ write_msr index value ∷ [] })))))
      ]
    ]

-- The dispatch on Argv[0]; the flag is the return value.
unfoldable pub dispatch : Platform → Bytes → List Bytes → World → World × Bool
dispatch p name argv w =
    if p.str_cmp name (codes "help") == 0
    then (cmd_help w, false)
    else if p.str_cmp name (codes "readmsr") == 0
    then (cmd_read_msr p (length argv) argv w, false)
    else if p.str_cmp name (codes "writemsr") == 0
    then (cmd_write_msr (length argv) argv w, false)
    else if p.str_cmp name (codes "exit") == 0
    then (print (codes "Exiting debug shell...\r\n") w, true)
    else (
      print (codes "'. Type 'help' for available commands.\r\n")
          (print name (print (codes "Unknown command: '") w)),
      false,
    )

unfoldable pub run_words : Platform → List Bytes → World → World × Bool
run_words p [] w = (w, false)
run_words p (name ∷ args) w = dispatch p name (name ∷ args) w

abbrev pub shell_max_args : ℕ
shell_max_args = 8

-- ShellProcessCommand: the line with its NULs, the world, and whether to leave the shell. `none`
-- stands for a tokenizer that runs out of fuel.
unfoldable pub process_command : Platform → Bytes → World → Option (Bytes × World × Bool)
process_command p line w = elim (tokenize line shell_max_args) [
  | none ↦ none
  | some (line', argv) ↦
      let done = run_words p (map (λ o. c_string (drop o line')) argv) w in
      some (line', done.0, done.1)
]

pub data Outcome : Type 0 where
  exited : World → Bytes → Outcome
  polling : World → Outcome
  stuck : Outcome

-- The loop of RunDebugShell on fuel: `exited` with the input that is left, `polling` when the
-- input ends inside ShellReadLine, `stuck` when the fuel runs out.
unfoldable pub shell_loop : Platform → ℕ → Bytes → Bytes → Bytes → World → Outcome
shell_loop p zero prompt buf input w = stuck
shell_loop p (suc fuel) prompt buf input w =
    let w' = print prompt w in
    elim (read_line (length buf) buf input w'.sent) [
      | none ↦ polling w'
      | some (e, rest) ↦ elim (process_command p e.buf (record w' { sent = e.sent })) [
        | none ↦ stuck
        | some (line, done, leave) ↦ elim leave [
          | true ↦ exited done rest
          | false ↦ shell_loop p fuel prompt line rest done
        ]
      ]
    ]

unfoldable pub run_debug_shell : Platform → Option Bytes → Bytes → Bytes → World → Outcome
run_debug_shell p prompt buf input w =
    let active : Bytes = elim prompt [ none ↦ codes "> " | some s ↦ s ] in
    shell_loop p (suc (length input)) active buf input (
      print (codes "Type 'help' for available commands.\r\n\r\n")
        (print (codes "\r\n*** Debug Shell ***\r\n") w))
