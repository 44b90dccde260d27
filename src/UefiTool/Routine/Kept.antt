-- ===== src/UefiTool/Routine/Kept.antt =====
-- Which parts of UefiToolRoutine in UefiTool.c keep what reads keep.
pub mod Commands
use uefi_toolkit_pkg.Base.{
  ℕ, zero, suc, ◌+◌, ◌≡◌, refl, Bool, true, false, List, [], ◌∷◌, Option, none, some, bit_or, ◌==◌,
  ◌||◌, if◌then◌else◌, Bool-cases, inl, inr, Status, success, efi_error, arith, ap,
}
use uefi_toolkit_pkg.UefiTool.{
  Context, opcode_wrmsr_bit, opcode_rmm_bit, opcode_wmm_bit, opcode_ucode_bit,
  opcode_write_mem_test_bit, opcode_rdmsr_bit, opcode_cpuid_bit,
}
use uefi_toolkit_pkg.UefiTool.Machine.{
  Machine, Location, Line, Tool, Outcome, ended, returned, asserted, overrun, Run, on_ended, ◌>>◌,
  when, print, with_values, effect, tool_of,
}
use uefi_toolkit_pkg.UefiTool.Routine.{
  Processors, location_at, some_bit, ap_ut_read_msr, ap_ut_read_cpu_id,
  read_memory_on_each_processor, save_file_to_disk, write_opened, by_width, io_access, mmio_access,
  memory_access, on_processor, print_at, visit, each_processor, dump_memory, read_control,
  register_commands, processor_commands, memory_commands, test_commands, uefi_tool_routine,
}

-- Opcode has no option that writes: a read is preferred to a write at an address.
pub record ReadsOnly (opcode : ℕ) : Type 0 where
  pub no_wrmsr : (opcode == opcode_wrmsr_bit) ≡ false
  pub no_wmm :
      some_bit opcode (bit_or opcode_rmm_bit opcode_wmm_bit) ≡ some_bit opcode opcode_rmm_bit
  pub no_ucode : (opcode == opcode_ucode_bit) ≡ false
  pub no_write_test : (opcode == opcode_write_mem_test_bit) ≡ false

module _ {S : Type 0} (P : S → Type 0) where
  abbrev pub CallKeeps : (S → List ℕ × S) → Type 0
  CallKeeps call = (s : S) → P s → P (call s).1

  -- Reads, starts of a processor for a procedure that keeps it, and files keep a property.
  pub record ReadsKeep (m : Machine S) : Type 0 where
    pub read_msr : (self i : ℕ) → CallKeeps (m.read_msr self i)
    pub cpuid_ex : (self i j : ℕ) → CallKeeps (m.cpuid_ex self i j)
    pub read_gdtr : (self : ℕ) → CallKeeps (m.read_gdtr self)
    pub read_cr : (self n : ℕ) → CallKeeps (m.read_cr self n)
    pub mmio_read : (self width a : ℕ) → CallKeeps (m.mmio_read self width a)
    pub io_read : (self width a : ℕ) → CallKeeps (m.io_read self width a)
    pub startup_this_ap :
        (i : ℕ) (procedure : ℕ → S → List ℕ × S) (initial : List ℕ)
        → ((self : ℕ) → CallKeeps (procedure self))
        → CallKeeps (m.startup_this_ap i procedure initial)
    pub delete_file : (name : List ℕ) (s : S) → P s → P (m.delete_file name s)
    pub open_file : (name : List ℕ) (s : S) → P s → P (m.open_file name s).1
    pub write_file :
        (name : List ℕ) (size address : ℕ) (s : S) → P s → P (m.write_file name size address s).1
    pub close_file : (s : S) → P s → P (m.close_file s)

  pub record Keeps (run : Run S) : Type 0 where
    pub keeps : (t : Tool S) → P t.machine → P (tool_of (run t)).machine

  on_ended-Keeps :
      {next : Run S} (o : Outcome S)
      → Keeps next
      → P (tool_of o).machine
      → P (tool_of (on_ended next o)).machine
  on_ended-Keeps (ended t) k h = k.keeps t h
  on_ended-Keeps (returned status t) k h = h
  on_ended-Keeps (asserted t) k h = h
  on_ended-Keeps (overrun t) k h = h

  pub >>-Keeps : {a b : Run S} → Keeps a → Keeps b → Keeps (a >> b)
  >>-Keeps {a} {b} ka kb = record { keeps = λ t h. on_ended-Keeps (a t) kb (ka.keeps t h) }

  when_true :
      (b : Bool) (run : Run S)
      → Keeps run
      → (t : Tool S) → P t.machine
      → P (tool_of (when b run t)).machine
  when_true true run k t h = k.keeps t h
  when_true false run k t h = h

  pub when-Keeps : (b : Bool) (run : Run S) → Keeps run → Keeps (when b run)
  when-Keeps b run k = record { keeps = when_true b run k }

  pub when_never : (b : Bool) (run : Run S) → b ≡ false → Keeps (when b run)
  when_never b run never = record { keeps = λ t h. rw never h }

  pub returned-Keeps : (status : Status) → Keeps (λ t. returned status t)
  returned-Keeps status = record { keeps = λ t h. h }

  -- A read, and the line that shows it.
  pub read_print :
      (call : S → List ℕ × S) (line : List ℕ → Line)
      → CallKeeps call
      → Keeps (with_values call (λ values. print (line values)))
  read_print call line k = record { keeps = λ t h. k t.machine h }

  module _ (m : Machine S) (c : Context) (p : Processors) (keep : ReadsKeep m) where
    print_at-Keeps :
        (o : Option Location) (line : Location → Line) (t : Tool S)
        → P t.machine
        → P (tool_of (print_at m c p o line t)).machine
    print_at-Keeps none line t h = h
    print_at-Keeps (some l) line t h = h

    pub ap_ut_read_msr-Keeps : (self : ℕ) → CallKeeps (ap_ut_read_msr m c self)
    unfolding ap_ut_read_msr
    ap_ut_read_msr-Keeps self = keep.read_msr self c.msr_index

    pub ap_ut_read_cpu_id-Keeps : (self : ℕ) → CallKeeps (ap_ut_read_cpu_id m c self)
    unfolding ap_ut_read_cpu_id
    ap_ut_read_cpu_id-Keeps self = keep.cpuid_ex self c.cpu_id_index c.cpu_id_sub_index

    pub read_memory-Keeps : (self : ℕ) → CallKeeps (read_memory_on_each_processor m c self)
    unfolding read_memory_on_each_processor
    read_memory-Keeps self = keep.mmio_read self 8 c.mm_address

    module _ (procedure : ℕ → S → List ℕ × S) (initial : List ℕ)
        (line : ℕ → Location → List ℕ → Line) (k : (self : ℕ) → CallKeeps (procedure self)) where
      on_processor-Keeps : (index : ℕ) → CallKeeps (on_processor m c p procedure initial index)
      unfolding on_processor
      on_processor-Keeps index s h = elim (Bool-cases (index == p.bsp)) [
        | inl own ↦ rw own (k p.bsp s h)
        | inr other ↦ rw other (keep.startup_this_ap index procedure initial k s h)
      ]

      pub visit-Keeps : (index : ℕ) → Keeps (visit m c p procedure initial line index)
      unfolding visit
      visit-Keeps index = record {
        keeps = λ t h.
            let r : List ℕ × S = on_processor m c p procedure initial index t.machine in
            print_at-Keeps (location_at p.locations index) (λ location. line index location r.0)
              (record t { machine = r.1 }) (on_processor-Keeps index t.machine h);
      }

      loop-Keeps :
          (rounds index : ℕ) (t : Tool S)
          → P t.machine
          → P (tool_of (each_processor m c p procedure initial line rounds index t)).machine
      unfolding each_processor
      loop-Keeps zero index t h = h
      loop-Keeps (suc rounds) index t h =
          on_ended-Keeps (visit m c p procedure initial line index t)
            (record { keeps = loop-Keeps rounds (index + 1) }) ((visit-Keeps index).keeps t h)

      pub each_processor-Keeps :
          (rounds index : ℕ) → Keeps (each_processor m c p procedure initial line rounds index)
      each_processor-Keeps rounds index = record { keeps = loop-Keeps rounds index }

    write_opened-Keeps :
        (name : List ℕ) (size address : ℕ) (opened : Status × S)
        → P opened.1
        → P (write_opened m c name size address opened).1
    unfolding write_opened
    write_opened-Keeps name size address opened h =
        let written = keep.write_file name size address opened.1 h in
        let closed = keep.close_file (m.write_file name size address opened.1).1 written in
        ground (arith, written, closed)

    save_file_to_disk-Keeps :
        (name : List ℕ) (size address : ℕ) (s : S)
        → P s
        → P (save_file_to_disk m c name size address s).1
    unfolding save_file_to_disk
    save_file_to_disk-Keeps name size address s h =
        elim (Bool-cases (efi_error (m.file_exists name s))) [
          | inl none_there ↦
              rw none_there (
                write_opened-Keeps name size address (m.open_file name s) (keep.open_file name s h))
          | inr old ↦ rw old (
              write_opened-Keeps name size address (m.open_file name (m.delete_file name s))
                (keep.open_file name (m.delete_file name s) (keep.delete_file name s h)))
        ]

    dump-Keeps : (t : Tool S) → P t.machine → P (tool_of (dump_memory m c p t)).machine
    unfolding dump_memory
    dump-Keeps t h =
        let kept =
          save_file_to_disk-Keeps c.dump_mem_file c.dump_mem_size c.dump_mem_address t.machine h in
        let r : Status × S =
          save_file_to_disk m c c.dump_mem_file c.dump_mem_size c.dump_mem_address t.machine in
        elim (Bool-cases (efi_error r.0)) [ inl failed ↦ rw failed kept | inr fine ↦ rw fine kept ]

    pub dump_memory-Keeps : Keeps (dump_memory m c p)
    dump_memory-Keeps = record { keeps = dump-Keeps }

    width-Keeps :
        (access : ℕ → Run S)
        → ((width : ℕ) → Keeps (access width))
        → (t : Tool S) → P t.machine
        → P (tool_of (by_width m c access t)).machine
    unfolding by_width
    width-Keeps access k t h =
        elim (Bool-cases
          (c.mm_width == 1 || c.mm_width == 2 || c.mm_width == 4 || c.mm_width == 8)) [
            | inl known ↦ rw known ((k c.mm_width).keeps t h)
            | inr other ↦ rw other h
          ]

    pub by_width-Keeps :
        (access : ℕ → Run S) → ((width : ℕ) → Keeps (access width)) → Keeps (by_width m c access)
    by_width-Keeps access k = record { keeps = width-Keeps access k }
