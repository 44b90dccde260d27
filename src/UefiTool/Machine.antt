-- ===== src/UefiTool/Machine.antt =====
-- What UefiToolRoutine of Application/UefiTool/UefiTool.c works on: the processors, the shell's
-- files, and the lines that it prints. The library calls are parameters on a state `S`.
use uefi_toolkit_pkg.Base.{ℕ, Bool, true, false, List, [], ◌∷◌, ◌++◌, Status}

-- Registers and memory as a processor (the first number) reads and writes them, a start of another
-- processor that waits for its end, and the shell's files. An access may change the state.
pub record Machine (S : Type 0) : Type 0 where
  pub read_msr : ℕ → ℕ → S → List ℕ × S
  pub write_msr : ℕ → ℕ → ℕ → S → S
  pub cpuid : ℕ → ℕ → S → List ℕ × S
  pub cpuid_ex : ℕ → ℕ → ℕ → S → List ℕ × S
  pub read_gdtr : ℕ → S → List ℕ × S
  pub read_cr : ℕ → ℕ → S → List ℕ × S
  pub mmio_read : ℕ → ℕ → ℕ → S → List ℕ × S
  pub mmio_write : ℕ → ℕ → ℕ → ℕ → S → S
  pub io_read : ℕ → ℕ → ℕ → S → List ℕ × S
  pub io_write : ℕ → ℕ → ℕ → ℕ → S → S
  pub startup_this_ap : ℕ → (ℕ → S → List ℕ × S) → List ℕ → S → List ℕ × S
  pub file_exists : List ℕ → S → Status
  pub delete_file : List ℕ → S → S
  pub open_file : List ℕ → S → Status × S
  pub write_file : List ℕ → ℕ → ℕ → S → Status × S
  pub close_file : S → S

-- EFI_CPU_PHYSICAL_LOCATION, with Package as `socket`.
pub record Location : Type 0 where
  pub socket : ℕ
  pub core : ℕ
  pub thread : ℕ

-- The lines of the Print calls, by their arguments.
pub data Line : Type 0 where
  msr_line : ℕ → List ℕ → Line
  msr_written : ℕ → ℕ → Line
  cpuid_line : ℕ → ℕ → List ℕ → Line
  gdtr_line : List ℕ → Line
  cr_line : ℕ → List ℕ → Line
  msr_of : ℕ → ℕ → Location → List ℕ → Line
  cpuid_of : Location → ℕ → ℕ → List ℕ → Line
  read_line : ℕ → ℕ → List ℕ → Line
  write_line : ℕ → ℕ → ℕ → Line
  save_failed : Line
  save_passed : List ℕ → Line
  signature_of : ℕ → Location → List ℕ → Line
  memory_of : ℕ → ℕ → Location → List ℕ → Line
  memory_written : ℕ → ℕ → ℕ → Location → Line

pub record Tool (S : Type 0) : Type 0 where
  pub machine : S
  pub lines : List Line

-- How a part ends: it goes on, it returns, it stops at ASSERT, or it reads behind mProcessorLocBuf.
pub data Outcome (S : Type 0) : Type 0 where
  ended : Tool S → Outcome S
  returned : Status → Tool S → Outcome S
  asserted overrun : Tool S → Outcome S

abbrev pub Run : Type 0 → Type 0
Run S = Tool S → Outcome S

module _ {S : Type 0} where
  abbrev pub on_ended : Run S → Outcome S → Outcome S
  on_ended next (ended t) = next t
  on_ended next (returned status t) = returned status t
  on_ended next (asserted t) = asserted t
  on_ended next (overrun t) = overrun t

  infixl 5 ◌>>◌
  abbrev pub ◌>>◌ : Run S → Run S → Run S
  (first >> next) t = on_ended next (first t)

  abbrev pub when : Bool → Run S → Run S
  when true run t = run t
  when false run t = ended t

  -- Print.
  abbrev pub print : Line → Run S
  print line t = ended (record t { lines = t.lines ++ line ∷ [] })

  -- A call that yields values, and what follows with them.
  abbrev pub with_values : (S → List ℕ × S) → (List ℕ → Run S) → Run S
  with_values call next t =
      let r : List ℕ × S = call t.machine in next r.0 (record t { machine = r.1 })

  -- A call for its effect alone.
  abbrev pub effect : (S → S) → Run S
  effect call t = ended (record t { machine = call t.machine })

  -- The state that a part leaves, however it ends.
  abbrev pub tool_of : Outcome S → Tool S
  tool_of (ended t) = t
  tool_of (returned status t) = t
  tool_of (asserted t) = t
  tool_of (overrun t) = t
