-- ===== src/UefiTool/Routine.antt =====
-- UefiToolRoutine and the functions it calls, of Application/UefiTool/UefiTool.c.
pub mod Kept
pub mod Everywhere
use uefi_toolkit_pkg.Base.{
  ℕ, zero, suc, ◌+◌, ◌*◌, ◌/◌, ◌%◌, ◌^◌, Bool, true, false, List, [], ◌∷◌, Option, none, some,
  bit_and, bit_or, get_or, ltb, ◌==◌, ◌||◌, if◌then◌else◌, Status, success, efi_error,
}
use uefi_toolkit_pkg.UefiTool.{
  Context, opcode_rdmsr_bit, opcode_wrmsr_bit, opcode_cpuid_bit, opcode_allprocessor_bit,
  opcode_processor_index_bit, opcode_sgdt_bit, opcode_cr_bit, opcode_rmm_bit, opcode_wmm_bit,
  opcode_dumpmem_bit, opcode_ucode_bit, opcode_read_mem_test_bit, opcode_write_mem_test_bit,
}
use uefi_toolkit_pkg.UefiTool.Machine.{
  Machine, Location, Line, Tool, Outcome, ended, returned, asserted, overrun, Run, on_ended, ◌>>◌,
  when, print, with_values, effect, msr_line, msr_written, cpuid_line, gdtr_line, cr_line, msr_of,
  cpuid_of, read_line, write_line, save_failed, save_passed, signature_of, memory_of,
  memory_written,
}

-- MSR_IA32_BIOS_SIGN_ID and CPUID_VERSION_INFO.
abbrev pub bios_sign_id : ℕ
bios_sign_id = 0x8b

abbrev pub version_info : ℕ
version_info = 1

-- mProcessorLocBuf, mProcessorNum and mBspIndex.
pub record Processors : Type 0 where
  pub locations : List Location
  pub number : ℕ
  pub bsp : ℕ

abbrev pub location_at : List Location → ℕ → Option Location
location_at [] i = none
location_at (l ∷ ls) zero = some l
location_at (l ∷ ls) (suc i) = location_at ls i

abbrev pub some_bit : ℕ → ℕ → Bool
some_bit opcode mask = if bit_and opcode mask == 0 then false else true

module _ {S : Type 0} (m : Machine S) (c : Context) where
  unfoldable pub ap_ut_read_msr : ℕ → S → List ℕ × S
  ap_ut_read_msr self = m.read_msr self c.msr_index

  unfoldable pub ap_ut_read_cpu_id : ℕ → S → List ℕ × S
  ap_ut_read_cpu_id self = m.cpuid_ex self c.cpu_id_index c.cpu_id_sub_index

  unfoldable pub read_memory_on_each_processor : ℕ → S → List ℕ × S
  read_memory_on_each_processor self = m.mmio_read self 8 c.mm_address

  -- The buffer that StartupThisAP is given is NULL.
  unfoldable pub write_memory_on_each_processor : ℕ → S → List ℕ × S
  write_memory_on_each_processor self s = ([], m.mmio_write self 8 c.mm_address c.mm_value s)

  -- GetCurrentMicrocodeSignature: the upper half of the register.
  unfoldable pub get_current_microcode_signature : ℕ → S → List ℕ × S
  get_current_microcode_signature self s =
      let s' : S = (m.cpuid self version_info (m.write_msr self bios_sign_id 0 s)).1 in
      let r : List ℕ × S = m.read_msr self bios_sign_id s' in
      ((get_or r.0 0 0 / 2 ^ 32) % 2 ^ 32 ∷ [], r.1)

  -- SaveFileToDisk, with its status.
  unfoldable pub write_opened : List ℕ → ℕ → ℕ → Status × S → Status × S
  write_opened name size address opened =
      let written : Status × S = m.write_file name size address opened.1 in
      if efi_error opened.0
      then opened
      else if efi_error written.0
      then (written.0, m.close_file written.1)
      else (success, m.close_file written.1)

  unfoldable pub save_file_to_disk : List ℕ → ℕ → ℕ → S → Status × S
  unfolding write_opened
  save_file_to_disk name size address s =
      let s' : S = if efi_error (m.file_exists name s) then s else m.delete_file name s in
      write_opened name size address (m.open_file name s')

  -- One of the accesses by width, or ASSERT (FALSE).
  unfoldable pub by_width : (ℕ → Run S) → Run S
  by_width access =
      if c.mm_width == 1 || c.mm_width == 2 || c.mm_width == 4 || c.mm_width == 8
      then access c.mm_width
      else asserted

  unfoldable pub write_value : ℕ → ℕ
  write_value width = c.mm_value % 2 ^ (8 * width)

  module _ (p : Processors) where
    -- The switches on MmWidth. A read of 8 bytes of memory is made at the I/O port.
    unfoldable pub io_access : Bool → ℕ → Run S
    unfolding write_value
    io_access reads width =
        if reads
        then with_values (m.io_read p.bsp width c.mm_address)
            (λ values. print (read_line 1 c.mm_address values))
        else effect (m.io_write p.bsp width c.mm_address (write_value width))
          >> print (write_line 1 c.mm_value c.mm_address)

    unfoldable pub mmio_access : Bool → ℕ → Run S
    unfolding write_value
    mmio_access reads width =
        let read : S → List ℕ × S =
          if width == 8
          then m.io_read p.bsp 8 c.mm_address
          else m.mmio_read p.bsp width c.mm_address in
        if reads
        then with_values read (λ values. print (read_line 0 c.mm_address values))
        else effect (m.mmio_write p.bsp width c.mm_address (write_value width))
          >> print (write_line 0 c.mm_value c.mm_address)

    unfoldable pub memory_access : Bool → Run S
    unfolding by_width io_access mmio_access
    memory_access reads =
        if c.mm_access_type == 0 then by_width (mmio_access reads) else by_width (io_access reads)

    -- A procedure on a processor: a call if it is the BSP, else StartupThisAP, whose status is not
    -- looked at, with the buffer as it was set.
    unfoldable pub on_processor : (ℕ → S → List ℕ × S) → List ℕ → ℕ → S → List ℕ × S
    on_processor procedure initial index =
        if index == p.bsp then procedure p.bsp else m.startup_this_ap index procedure initial

    -- A Print with mProcessorLocBuf[Index].
    abbrev pub print_at : Option Location → (Location → Line) → Run S
    print_at none line t = overrun t
    print_at (some location) line t = print (line location) t

    unfoldable pub visit :
        (ℕ → S → List ℕ × S) → List ℕ → (ℕ → Location → List ℕ → Line) → ℕ → Run S
    visit procedure initial line index =
        with_values (on_processor procedure initial index) (λ values.
          print_at (location_at p.locations index) (λ location. line index location values))

    -- The loops over the processors: the rounds left, and Index.
    unfoldable pub each_processor :
        (ℕ → S → List ℕ × S) → List ℕ → (ℕ → Location → List ℕ → Line) → ℕ → ℕ → Run S
    each_processor procedure initial line zero index t = ended t
    each_processor procedure initial line (suc rounds) index t =
        on_ended (each_processor procedure initial line rounds (index + 1))
          (visit procedure initial line index t)

    abbrev all_processors : (ℕ → S → List ℕ × S) → List ℕ → (ℕ → Location → List ℕ → Line) → Run S
    all_processors procedure initial line = each_processor procedure initial line p.number 0

    unfoldable pub dump_memory : Run S
    dump_memory t =
        let r : Status × S =
          save_file_to_disk c.dump_mem_file c.dump_mem_size c.dump_mem_address t.machine in
        let t' : Tool S = record t { machine = r.1 } in
        if efi_error r.0
        then on_ended (λ u. returned r.0 u) (print save_failed t')
        else print (save_passed c.dump_mem_file) t'

    unfoldable pub read_control : ℕ → Run S
    read_control n = with_values (m.read_cr p.bsp n) (λ values. print (cr_line n values))

    -- The tests on Opcode, in the order of the source.
    unfoldable pub register_commands : ℕ → Run S
    register_commands opcode =
        when (opcode == opcode_rdmsr_bit)
          (with_values (ap_ut_read_msr p.bsp) (λ values. print (msr_line c.msr_index values)))
        >> when (opcode == opcode_wrmsr_bit) (
            effect (m.write_msr p.bsp c.msr_index c.msr_value)
            >> print (msr_written c.msr_value c.msr_index))
        >> when (opcode == opcode_cpuid_bit) (
            with_values (ap_ut_read_cpu_id p.bsp)
              (λ values. print (cpuid_line c.cpu_id_index c.cpu_id_sub_index values)))
        >> when (opcode == opcode_sgdt_bit)
            (with_values (m.read_gdtr p.bsp) (λ values. print (gdtr_line values)))
        >> when (opcode == opcode_cr_bit)
            (read_control 0 >> read_control 2 >> read_control 3 >> read_control 4)

    unfoldable pub processor_commands : ℕ → Run S
    processor_commands opcode =
        when (opcode == bit_or opcode_rdmsr_bit opcode_processor_index_bit)
          (visit ap_ut_read_msr (0 ∷ []) (msr_of c.msr_index) c.processor_index)
        >> when (opcode == bit_or opcode_rdmsr_bit opcode_allprocessor_bit)
            (all_processors ap_ut_read_msr (0 ∷ []) (msr_of c.msr_index))
        >> when (opcode == bit_or opcode_cpuid_bit opcode_allprocessor_bit) (
            all_processors ap_ut_read_cpu_id (0 ∷ 0 ∷ 0 ∷ 0 ∷ [])
              (λ index location. cpuid_of location c.cpu_id_index c.cpu_id_sub_index))

    unfoldable pub memory_commands : ℕ → Run S
    memory_commands opcode =
        when (some_bit opcode (bit_or opcode_rmm_bit opcode_wmm_bit))
          (memory_access (some_bit opcode opcode_rmm_bit))
        >> when (opcode == opcode_dumpmem_bit) dump_memory

    unfoldable pub test_commands : ℕ → Run S
    test_commands opcode =
        when (opcode == opcode_ucode_bit)
          (all_processors get_current_microcode_signature (0 ∷ []) signature_of)
        >> when (opcode == opcode_read_mem_test_bit)
            (all_processors read_memory_on_each_processor (0 ∷ []) (memory_of c.mm_address))
        >> when (opcode == opcode_write_mem_test_bit) (
            all_processors write_memory_on_each_processor []
              (λ index location values. memory_written c.mm_address c.mm_value index location))

    unfoldable pub uefi_tool_routine : ℕ → Run S
    uefi_tool_routine opcode =
        register_commands opcode
        >> processor_commands opcode
        >> memory_commands opcode
        >> test_commands opcode
        >> (λ t. returned success t)
