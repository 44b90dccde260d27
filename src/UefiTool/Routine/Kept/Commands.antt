-- ===== src/UefiTool/Routine/Kept/Commands.antt =====
-- The options of UefiTool.c that write no register and no memory.
use uefi_toolkit_pkg.Base.{ℕ, ◌≡◌, Bool, true, false, [], ◌∷◌, ◌==◌, Bool-cases, inl, inr, success}
use uefi_toolkit_pkg.UefiTool.{Context, opcode_rmm_bit}
use uefi_toolkit_pkg.UefiTool.Machine.{
  Machine, Tool, ◌>>◌, when, tool_of, msr_line, cpuid_line, gdtr_line, cr_line, msr_of, cpuid_of,
  read_line, memory_of,
}
use uefi_toolkit_pkg.UefiTool.Routine.{
  Processors, some_bit, ap_ut_read_msr, ap_ut_read_cpu_id, read_memory_on_each_processor, io_access,
  mmio_access, memory_access, read_control, register_commands, processor_commands, memory_commands,
  test_commands, uefi_tool_routine,
}
use uefi_toolkit_pkg.UefiTool.Routine.Kept.{
  ReadsOnly, ReadsKeep, Keeps, >>-Keeps, when-Keeps, when_never, read_print, ap_ut_read_msr-Keeps,
  ap_ut_read_cpu_id-Keeps, read_memory-Keeps, visit-Keeps, each_processor-Keeps, dump_memory-Keeps,
  returned-Keeps, by_width-Keeps,
}

module _ {S : Type 0} (P : S → Type 0) (m : Machine S) (c : Context) (p : Processors)
    (keep : ReadsKeep P m) where
  io_read-Keeps : (width : ℕ) → Keeps P (io_access m c p true width)
  unfolding io_access
  io_read-Keeps width =
      read_print P (m.io_read p.bsp width c.mm_address) (read_line 1 c.mm_address)
        (keep.io_read p.bsp width c.mm_address)

  mmio_read-Keeps : (width : ℕ) → Keeps P (mmio_access m c p true width)
  unfolding mmio_access
  mmio_read-Keeps width = record {
    keeps = λ t h. elim (Bool-cases (width == 8)) [
      | inl wide ↦ rw wide (keep.io_read p.bsp 8 c.mm_address t.machine h)
      | inr narrow ↦ rw narrow (keep.mmio_read p.bsp width c.mm_address t.machine h)
    ];
  }

  memory_read-Keeps : Keeps P (memory_access m c p true)
  unfolding memory_access
  memory_read-Keeps =
      let memory = by_width-Keeps P m c p keep (mmio_access m c p true) mmio_read-Keeps in
      let io = by_width-Keeps P m c p keep (io_access m c p true) io_read-Keeps in
      record {
        keeps = λ t h. elim (Bool-cases (c.mm_access_type == 0)) [
          | inl at_memory ↦ rw at_memory (memory.keeps t h)
          | inr at_io ↦ rw at_io (io.keeps t h)
        ];
      }

  read_control-Keeps : (n : ℕ) → Keeps P (read_control m c p n)
  unfolding read_control
  read_control-Keeps n = read_print P (m.read_cr p.bsp n) (cr_line n) (keep.read_cr p.bsp n)

  controls-Keeps :
      Keeps P (
        read_control m c p 0
        >> read_control m c p 2
        >> read_control m c p 3
        >> read_control m c p 4)
  controls-Keeps =
      >>-Keeps P
        (>>-Keeps P (>>-Keeps P (read_control-Keeps 0) (read_control-Keeps 2))
          (read_control-Keeps 3))
        (read_control-Keeps 4)

  register_commands-Keeps :
      (opcode : ℕ) → ReadsOnly opcode → Keeps P (register_commands m c p opcode)
  unfolding register_commands
  register_commands-Keeps opcode only =
      >>-Keeps P
        (>>-Keeps P
          (>>-Keeps P
            (>>-Keeps P
              (when-Keeps P _ _ (
                read_print P (ap_ut_read_msr m c p.bsp) (msr_line c.msr_index)
                  (ap_ut_read_msr-Keeps P m c p keep p.bsp)))
              (when_never P _ _ only.no_wrmsr))
            (when-Keeps P _ _ (
              read_print P (ap_ut_read_cpu_id m c p.bsp)
                (cpuid_line c.cpu_id_index c.cpu_id_sub_index)
                (ap_ut_read_cpu_id-Keeps P m c p keep p.bsp))))
          (when-Keeps P _ _ (read_print P (m.read_gdtr p.bsp) gdtr_line (keep.read_gdtr p.bsp))))
        (when-Keeps P _ _ controls-Keeps)

  processor_commands-Keeps : (opcode : ℕ) → Keeps P (processor_commands m c p opcode)
  unfolding processor_commands
  processor_commands-Keeps opcode =
      >>-Keeps P
        (>>-Keeps P
          (when-Keeps P _ _ (
            visit-Keeps P m c p keep (ap_ut_read_msr m c) (0 ∷ []) (msr_of c.msr_index)
              (ap_ut_read_msr-Keeps P m c p keep) c.processor_index))
          (when-Keeps P _ _ (
            each_processor-Keeps P m c p keep (ap_ut_read_msr m c) (0 ∷ []) (msr_of c.msr_index)
              (ap_ut_read_msr-Keeps P m c p keep) p.number 0)))
        (when-Keeps P _ _ (
          each_processor-Keeps P m c p keep (ap_ut_read_cpu_id m c) (0 ∷ 0 ∷ 0 ∷ 0 ∷ [])
            (λ index location. cpuid_of location c.cpu_id_index c.cpu_id_sub_index)
            (ap_ut_read_cpu_id-Keeps P m c p keep) p.number 0))

  access-Keeps :
      {both : Bool} (reads : Bool) → both ≡ reads → Keeps P (when both (memory_access m c p reads))
  access-Keeps true same = when-Keeps P _ _ memory_read-Keeps
  access-Keeps false same = when_never P _ _ same

  memory_commands-Keeps : (opcode : ℕ) → ReadsOnly opcode → Keeps P (memory_commands m c p opcode)
  unfolding memory_commands
  memory_commands-Keeps opcode only =
      >>-Keeps P (access-Keeps (some_bit opcode opcode_rmm_bit) only.no_wmm)
        (when-Keeps P _ _ (dump_memory-Keeps P m c p keep))

  test_commands-Keeps : (opcode : ℕ) → ReadsOnly opcode → Keeps P (test_commands m c p opcode)
  unfolding test_commands
  test_commands-Keeps opcode only =
      >>-Keeps P
        (>>-Keeps P (when_never P _ _ only.no_ucode) (
          when-Keeps P _ _ (
            each_processor-Keeps P m c p keep (read_memory_on_each_processor m c) (0 ∷ [])
              (memory_of c.mm_address) (read_memory-Keeps P m c p keep) p.number 0)))
        (when_never P _ _ only.no_write_test)

  -- UefiToolRoutine keeps every property of the machine that reads of registers, memory and ports, and
  -- the calls on files keep, and starts of a processor for a procedure that keeps it, however it
  -- ends, if Opcode is neither a write of an MSR, nor the microcode signature, nor the write test,
  -- and has no write at an address without a read there.
  pub uefi_tool_routine-Keeps :
      (opcode : ℕ) (t : Tool S)
      → ReadsOnly opcode
      → P t.machine
      → P (tool_of (uefi_tool_routine m c p opcode t)).machine
  unfolding uefi_tool_routine
  uefi_tool_routine-Keeps opcode t only h =
      let all =
        >>-Keeps P
          (>>-Keeps P
            (>>-Keeps P
              (>>-Keeps P (register_commands-Keeps opcode only) (processor_commands-Keeps opcode))
              (memory_commands-Keeps opcode only))
            (test_commands-Keeps opcode only))
          (returned-Keeps P success) in
      all.keeps t h
