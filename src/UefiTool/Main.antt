-- ===== src/UefiTool/Main.antt =====
-- ShellAppMain of Application/UefiTool/UefiTool.c, from the command line to what is printed.
use uefi_toolkit_pkg.Base.{
  ℕ, ◌%◌, ◌^◌, ◌≡◌, refl, false, List, [], ◌∷◌, Bytes, Bool, codes, same_text, ◌⊎◌, inl, inr,
  Status, success, efi_error, length,
}
use uefi_toolkit_pkg.UefiTool.{
  Context, start, Parsed, running, faulted, parsed, goes, str_upr, option_step, option_loop,
  read_options, parse_arguments, opcode_rdmsr_bit,
}
use uefi_toolkit_pkg.UefiTool.Machine.{
  Machine, Tool, Outcome, ended, returned, asserted, overrun, msr_of,
}
use uefi_toolkit_pkg.UefiTool.Routine.{Processors, uefi_tool_routine, ap_ut_read_msr}
use uefi_toolkit_pkg.UefiTool.Routine.Everywhere.{
  Starts, in_turn, each_msr, opcode_of, procedure_of, line_of, uefi_tool_routine-in_turn,
}
use uefi_toolkit_pkg.UefiTool.Locate.{
  Services, Located, get_processors_cpu_location, get_processors_cpu_location-Ends,
}

-- How the program ends: it exits with a status, the options ran out of rounds or of words, or the
-- routine stopped.
pub data Exit (S : Type 0) : Type 0 where
  exits : Status → Tool S → Exit S
  still_reading reads_null : Exit S
  stops : Outcome S → Exit S

module _ {S : Type 0} (m : Machine S) (hex : List ℕ → ℕ) (same : List ℕ → Bytes → Bool) where
  -- The status of UefiToolRoutine is not looked at.
  unfoldable pub on_routine : Outcome S → Exit S
  on_routine (ended t) = exits success t
  on_routine (returned status t) = exits success t
  on_routine (asserted t) = stops (asserted t)
  on_routine (overrun t) = stops (overrun t)

  unfoldable pub on_parsed : Processors → Tool S → Status ⊎ Parsed → Exit S
  on_parsed p t (inl status) = exits status t
  on_parsed p t (inr running) = still_reading
  on_parsed p t (inr faulted) = reads_null
  on_parsed p t (inr (parsed c)) = on_routine (uefi_tool_routine m c p c.opcode t)

  unfoldable pub shell_app_main : Services → List (List ℕ) → Tool S → Exit S
  shell_app_main sv argv t =
      let located : Located = get_processors_cpu_location sv in
      on_parsed located.processors t (parse_arguments hex same argv located.status)

module _ (hex : List ℕ → ℕ) (name rdmsr index all : List ℕ) where
  abbrev pub rdmsr_all : List (List ℕ)
  rdmsr_all = name ∷ rdmsr ∷ index ∷ all ∷ []

  abbrev pub rdmsr_context : Context
  rdmsr_context = record start { opcode = opcode_of each_msr; msr_index = hex index % 2 ^ 32 }

  module _ (is_rdmsr : str_upr rdmsr ≡ codes "RDMSR") (is_all : str_upr all ≡ codes "-A") where
    first_option :
        option_step hex same_text rdmsr_all 1 start
        ≡ goes 3 (record start { opcode = opcode_rdmsr_bit; msr_index = hex index % 2 ^ 32 })
    unfolding option_step same_text
    first_option = rw is_rdmsr refl

    second_option :
        option_step hex same_text rdmsr_all 3
          (record start { opcode = opcode_rdmsr_bit; msr_index = hex index % 2 ^ 32 })
        ≡ goes 4 rdmsr_context
    unfolding option_step same_text opcode_of
    second_option = rw is_all refl

    rdmsr_all_parsed :
        (located : Status)
        → efi_error located ≡ false
        → parse_arguments hex same_text rdmsr_all located ≡ inr (parsed rdmsr_context)
    unfolding parse_arguments read_options option_loop
    rdmsr_all_parsed located fine = rw (fine, first_option, second_option) refl

    located_all :
        (sv : Services)
        → efi_error (get_processors_cpu_location sv).status ≡ false
        → (get_processors_cpu_location sv).processors.number
          ≡ length (get_processors_cpu_location sv).processors.locations
    located_all sv fine = elim (get_processors_cpu_location-Ends sv) [
      | inl filled ↦ filled.0.complete
      | inr failed ↦ absurd (cc (failed.0))
    ]

    -- The program with the words RDMSR, an index and -A, the first and the last in any letter case,
    -- exits with status 0 after it has read the register of that index, as 32 bits, on the processors
    -- 0, 1, 2, ... in turn, and shown each value with the number and the location of its processor, if
    -- GetProcessorsCpuLocation succeeds and StartupThisAP runs a procedure to its end on each
    -- processor but the BSP.
    pub shell_app_main-rdmsr_all :
        {S : Type 0} (m : Machine S) (sv : Services) (t : Tool S)
        → efi_error (get_processors_cpu_location sv).status ≡ false
        → Starts m rdmsr_context (get_processors_cpu_location sv).processors.bsp
        → shell_app_main m hex same_text sv rdmsr_all t
          ≡ exits success (
              in_turn m rdmsr_context
                (λ self. m.read_msr self (hex index % 2 ^ 32))
                (msr_of (hex index % 2 ^ 32))
                0
                (get_processors_cpu_location sv).processors.locations
                t)
    unfolding shell_app_main on_parsed on_routine procedure_of line_of ap_ut_read_msr
    shell_app_main-rdmsr_all m sv t fine starts =
        let p = (get_processors_cpu_location sv).processors in
        let options = rdmsr_all_parsed (get_processors_cpu_location sv).status fine in
        let routine =
          uefi_tool_routine-in_turn m rdmsr_context p starts each_msr t (located_all sv fine) in
        rw (options, routine) refl
