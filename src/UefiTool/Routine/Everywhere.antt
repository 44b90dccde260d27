-- ===== src/UefiTool/Routine/Everywhere.antt =====
-- The options of UefiToolRoutine in UefiTool.c that run on every processor.
use uefi_toolkit_pkg.Base.{
  ℕ, zero, suc, ◌+◌, ◌≤◌, ◌≡◌, ◌≢◌, refl, ◌∙◌, sym, ap₂, length-append, false, List, [], ◌∷◌, ◌++◌,
  append_assoc, All, bit_or, length, none, some, ◌==◌, ==_iff, Bool-cases, inl, inr, success, arith,
}
use uefi_toolkit_pkg.UefiTool.{
  Context, opcode_rdmsr_bit, opcode_wrmsr_bit, opcode_cpuid_bit, opcode_allprocessor_bit,
  opcode_processor_index_bit, opcode_sgdt_bit, opcode_cr_bit, opcode_rmm_bit, opcode_wmm_bit,
  opcode_dumpmem_bit, opcode_ucode_bit, opcode_read_mem_test_bit, opcode_write_mem_test_bit,
}
use uefi_toolkit_pkg.UefiTool.Machine.{
  Machine, Location, Line, Tool, ended, returned, overrun, msr_of, cpuid_of, signature_of,
  memory_of, memory_written,
}
use uefi_toolkit_pkg.UefiTool.Routine.{
  Processors, location_at, some_bit, ap_ut_read_msr, ap_ut_read_cpu_id,
  get_current_microcode_signature, read_memory_on_each_processor, write_memory_on_each_processor,
  on_processor, visit, each_processor, register_commands, processor_commands, memory_commands,
  test_commands, uefi_tool_routine,
}

-- The options for all processors.
pub data EachCommand : Type 0 where
  each_msr each_cpuid each_signature each_read each_write : EachCommand

unfoldable pub opcode_of : EachCommand → ℕ
opcode_of each_msr = bit_or opcode_rdmsr_bit opcode_allprocessor_bit
opcode_of each_cpuid = bit_or opcode_cpuid_bit opcode_allprocessor_bit
opcode_of each_signature = opcode_ucode_bit
opcode_of each_read = opcode_read_mem_test_bit
opcode_of each_write = opcode_write_mem_test_bit

location_at-append :
    (seen rest : List Location) (l : Location)
    → location_at (seen ++ l ∷ rest) (length seen) ≡ some l
location_at-append [] rest l = refl
location_at-append (x ∷ seen) rest l = location_at-append seen rest l

location_at-behind : (ls : List Location) (i : ℕ) → length ls ≤ i → location_at ls i ≡ none
location_at-behind [] i h = refl
location_at-behind (l ∷ ls) zero h = absurd (omega arith)
location_at-behind (l ∷ ls) (suc i) h = location_at-behind ls i (omega arith)

module _ {S : Type 0} (m : Machine S) (c : Context) where
  unfoldable pub procedure_of : EachCommand → ℕ → S → List ℕ × S
  procedure_of each_msr = ap_ut_read_msr m c
  procedure_of each_cpuid = ap_ut_read_cpu_id m c
  procedure_of each_signature = get_current_microcode_signature m c
  procedure_of each_read = read_memory_on_each_processor m c
  procedure_of each_write = write_memory_on_each_processor m c

  -- The buffer before the procedure runs.
  initial_of : EachCommand → List ℕ
  initial_of each_cpuid = 0 ∷ 0 ∷ 0 ∷ 0 ∷ []
  initial_of each_write = []
  initial_of _ = 0 ∷ []

  unfoldable pub line_of : EachCommand → ℕ → Location → List ℕ → Line
  line_of each_msr index location values = msr_of c.msr_index index location values
  line_of each_cpuid index location values =
      cpuid_of location c.cpu_id_index c.cpu_id_sub_index values
  line_of each_signature index location values = signature_of index location values
  line_of each_read index location values = memory_of c.mm_address index location values
  line_of each_write index location values = memory_written c.mm_address c.mm_value index location

  -- A procedure runs on one processor after another, and a line shows what each of them yields.
  unfoldable pub in_turn :
      (ℕ → S → List ℕ × S) → (ℕ → Location → List ℕ → Line) → ℕ → List Location → Tool S → Tool S
  in_turn procedure line index [] t = t
  in_turn procedure line index (location ∷ rest) t =
      let r : List ℕ × S = procedure index t.machine in
      in_turn procedure line (index + 1) rest
        (record { machine = r.1; lines = t.lines ++ line index location r.0 ∷ [] })

  -- StartupThisAP runs the procedure on each processor but the BSP, and waits for its end.
  pub record Starts (bsp : ℕ) : Type 0 where
    pub runs :
        (i : ℕ) (procedure : ℕ → S → List ℕ × S) (initial : List ℕ) (s : S)
        → i ≢ bsp
        → m.startup_this_ap i procedure initial s ≡ procedure i s

  module _ (p : Processors) (starts : Starts p.bsp) where
    module _ (procedure : ℕ → S → List ℕ × S) (initial : List ℕ)
        (line : ℕ → Location → List ℕ → Line) where
      on_processor_runs :
          (index : ℕ) (s : S) → on_processor m c p procedure initial index s ≡ procedure index s
      unfolding on_processor
      on_processor_runs index s = elim (Bool-cases (index == p.bsp)) [
        | inl own ↦ let same = (==_iff index p.bsp).0 own in rw (own, same) refl
        | inr other ↦
            rw other (starts.runs index procedure initial s (λ e. cc ((==_iff index p.bsp).1 e)))
      ]

      visit_runs :
          (index : ℕ) (location : Location) (t : Tool S)
          → location_at p.locations index ≡ some location
          → visit m c p procedure initial line index t
            ≡ ended (record {
              machine = (procedure index t.machine).1;
              lines = t.lines ++ line index location (procedure index t.machine).0 ∷ [];
            })
      unfolding visit
      visit_runs index location t here =
          let runs = on_processor_runs index t.machine in rw (here, runs) refl

      each_processor_runs :
          (seen rest : List Location) (rounds index : ℕ) (t : Tool S)
          → p.locations ≡ seen ++ rest
          → rounds ≡ length rest
          → index ≡ length seen
          → each_processor m c p procedure initial line rounds index t
            ≡ ended (in_turn procedure line index rest t)
      unfolding each_processor in_turn
      each_processor_runs seen [] rounds index t split count at_end = rw count refl
      each_processor_runs seen (l ∷ rest) rounds index t split count at_end =
          let here : location_at p.locations index ≡ some l =
            ap₂ location_at split at_end ∙ location_at-append seen rest l in
          let step = visit_runs index l t here in
          let longer : index + 1 ≡ length (seen ++ l ∷ []) =
            omega (arith, at_end, length-append seen (l ∷ [])) in
          let r : List ℕ × S = procedure index t.machine in
          let next =
            each_processor_runs (seen ++ l ∷ []) rest (length rest) (index + 1)
              (record { machine = r.1; lines = t.lines ++ line index l r.0 ∷ [] })
              (split ∙ sym (append_assoc seen (l ∷ []) rest)) refl longer in
          rw (count, step) next

    -- An option for all processors runs its procedure on the processors 0, 1, 2, ... in turn, on the
    -- BSP as on the others, with a line for each that shows what its procedure yielded, and returns
    -- success, if StartupThisAP runs a procedure to its end on each processor but the BSP and
    -- mProcessorLocBuf has an entry for each processor.
    pub uefi_tool_routine-in_turn :
        (k : EachCommand) (t : Tool S)
        → p.number ≡ length p.locations
        → uefi_tool_routine m c p (opcode_of k) t
          ≡ returned success (in_turn (procedure_of k) (line_of k) 0 p.locations t)
    unfolding uefi_tool_routine register_commands processor_commands memory_commands test_commands
        opcode_of procedure_of line_of
    uefi_tool_routine-in_turn each_msr t all =
        rw
          (each_processor_runs (procedure_of each_msr) (0 ∷ []) (line_of each_msr) [] p.locations
            p.number 0 t refl all refl)
          refl
    uefi_tool_routine-in_turn each_cpuid t all =
        rw
          (each_processor_runs (procedure_of each_cpuid) (0 ∷ 0 ∷ 0 ∷ 0 ∷ []) (line_of each_cpuid)
            [] p.locations p.number 0 t refl all refl)
          refl
    uefi_tool_routine-in_turn each_signature t all =
        rw
          (each_processor_runs (procedure_of each_signature) (0 ∷ []) (line_of each_signature) []
            p.locations p.number 0 t refl all refl)
          refl
    uefi_tool_routine-in_turn each_read t all =
        rw
          (each_processor_runs (procedure_of each_read) (0 ∷ []) (line_of each_read) [] p.locations
            p.number 0 t refl all refl)
          refl
    uefi_tool_routine-in_turn each_write t all =
        rw
          (each_processor_runs (procedure_of each_write) [] (line_of each_write) [] p.locations
            p.number 0 t refl all refl)
          refl

  module _ (p : Processors) where
    -- RDMSR for one processor reads behind mProcessorLocBuf if its index, as it is on the command
    -- line, is not below the number of entries, after the MSR was read there or not.
    pub uefi_tool_routine-overrun :
        (t : Tool S)
        → length p.locations ≤ c.processor_index
        → uefi_tool_routine m c p (bit_or opcode_rdmsr_bit opcode_processor_index_bit) t
          ≡ overrun (record t {
            machine =
                (on_processor m c p (ap_ut_read_msr m c) (0 ∷ []) c.processor_index t.machine).1;
          })
    unfolding uefi_tool_routine register_commands processor_commands memory_commands test_commands
        visit
    uefi_tool_routine-overrun t behind =
        rw (location_at-behind p.locations c.processor_index behind) refl

    -- Opcode is none of those that do something.
    pub record NoCommand (opcode : ℕ) : Type 0 where
      pub no_access : some_bit opcode (bit_or opcode_rmm_bit opcode_wmm_bit) ≡ false
      pub none_single :
          All
            (λ bit. (opcode == bit) ≡ false)
            (opcode_rdmsr_bit ∷ opcode_wrmsr_bit ∷ opcode_cpuid_bit ∷ opcode_sgdt_bit
              ∷ opcode_cr_bit ∷ opcode_dumpmem_bit ∷ [])
      pub none_on_one : (opcode == bit_or opcode_rdmsr_bit opcode_processor_index_bit) ≡ false
      pub none_on_each : (k : EachCommand) → (opcode == opcode_of k) ≡ false

    -- Every other combination of options does nothing at all, and returns success: WRMSR or CPUID for
    -- one processor, WRMSR for all, RDMSR with both options, and any two of the options that stand
    -- alone, unless there is an access at an address.
    pub uefi_tool_routine-nothing :
        (opcode : ℕ) (t : Tool S)
        → NoCommand opcode
        → uefi_tool_routine m c p opcode t ≡ returned success t
    unfolding uefi_tool_routine register_commands processor_commands memory_commands test_commands
        opcode_of
    uefi_tool_routine-nothing opcode t idle =
        let single = idle.none_single in
        let later = single.1.1.1 in
        rw
          (
            single.0,
            single.1.0,
            single.1.1.0,
            later.0,
            later.1.0,
            later.1.1.0,
            idle.no_access,
            idle.none_on_one,
            idle.none_on_each each_msr,
            idle.none_on_each each_cpuid,
            idle.none_on_each each_signature,
            idle.none_on_each each_read,
            idle.none_on_each each_write,
          )
          refl
