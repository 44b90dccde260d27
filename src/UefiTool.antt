-- ===== src/UefiTool.antt =====
-- The options of Application/UefiTool/UefiTool.c. StrHexToUintn and StrCmp, as a test of equality,
-- are parameters; a word is the list of its characters before the NUL.
pub mod Ends
pub mod Locate
pub mod Machine
pub mod Main
pub mod Routine
use uefi_toolkit_pkg.Base.{
  ℕ, zero, suc, ◌+◌, ◌-◌, ◌%◌, ◌^◌, Bool, true, false, ◌&&◌, List, [], ◌∷◌, ◌++◌, bit_or, Bytes,
  codes, length, get_or, take, ltb, leb, ◌==◌, ◌||◌, if◌then◌else◌, ◌⊎◌, inl, inr, Status, success,
  error, efi_error, invalid_parameter,
}

unfoldable pub to_upper : ℕ → ℕ
to_upper a = if leb 97 a && leb a 122 then a - 0x20 else a

unfoldable pub str_upr : List ℕ → List ℕ
str_upr [] = []
str_upr (c ∷ str) = to_upper c ∷ str_upr str

abbrev pub opcode_rdmsr_bit : ℕ
opcode_rdmsr_bit = 2 ^ 0

abbrev pub opcode_wrmsr_bit : ℕ
opcode_wrmsr_bit = 2 ^ 1

abbrev pub opcode_cpuid_bit : ℕ
opcode_cpuid_bit = 2 ^ 2

abbrev pub opcode_allprocessor_bit : ℕ
opcode_allprocessor_bit = 2 ^ 3

abbrev pub opcode_processor_index_bit : ℕ
opcode_processor_index_bit = 2 ^ 4

abbrev pub opcode_sgdt_bit : ℕ
opcode_sgdt_bit = 2 ^ 5

abbrev pub opcode_cr_bit : ℕ
opcode_cr_bit = 2 ^ 6

abbrev pub opcode_rmm_bit : ℕ
opcode_rmm_bit = 2 ^ 7

abbrev pub opcode_wmm_bit : ℕ
opcode_wmm_bit = 2 ^ 8

abbrev pub opcode_dumpmem_bit : ℕ
opcode_dumpmem_bit = 2 ^ 9

abbrev pub opcode_ucode_bit : ℕ
opcode_ucode_bit = 2 ^ 10

abbrev pub opcode_read_mem_test_bit : ℕ
opcode_read_mem_test_bit = 2 ^ 11

abbrev pub opcode_write_mem_test_bit : ℕ
opcode_write_mem_test_bit = 2 ^ 12

-- UEFI_TOOL_CONTEXT and Opcode.
pub record Context : Type 0 where
  pub opcode : ℕ
  pub msr_index : ℕ
  pub msr_value : ℕ
  pub cpu_id_index : ℕ
  pub cpu_id_sub_index : ℕ
  pub processor_index : ℕ
  pub mm_address : ℕ
  pub mm_value : ℕ
  pub mm_width : ℕ
  pub mm_access_type : ℕ
  pub dump_mem_address : ℕ
  pub dump_mem_size : ℕ
  pub dump_mem_file : List ℕ

-- The context after SetMem and the default width.
abbrev pub start : Context
start = record {
  opcode = 0;
  msr_index = 0;
  msr_value = 0;
  cpu_id_index = 0;
  cpu_id_sub_index = 0;
  processor_index = 0;
  mm_address = 0;
  mm_value = 0;
  mm_width = 4;
  mm_access_type = 0;
  dump_mem_address = 0;
  dump_mem_size = 0;
  dump_mem_file = [];
}

-- How the options were read: rounds left over, a use of NULL, or the context.
pub data Parsed : Type 0 where
  running faulted : Parsed
  parsed : Context → Parsed

-- One round: the next index before its wrap-around, or a use of the NULL behind the words.
pub data Step : Type 0 where
  goes : ℕ → Context → Step
  faults : Step

-- What a round leads to.
abbrev pub on_step : (ℕ → Context → Parsed) → Step → Parsed
on_step next (goes i c) = next (i % 2 ^ 8) c
on_step next faults = faulted

module _ (hex : List ℕ → ℕ) (same : List ℕ → Bytes → Bool) (argv : List (List ℕ)) where
  abbrev number : ℕ → ℕ
  number i = hex (get_or argv i [])

  abbrev has : ℕ → Bool
  has i = ltb i (length argv)

  abbrev pub is : ℕ → Bytes → Bool
  is i word = same (str_upr (get_or argv i [])) word

  -- The options for MMIO, I/O and memory tests, and what is no option.
  unfoldable pub memory_step : ℕ → Context → Step
  memory_step i c =
      if has (i + 1) && is i (codes "-RMM")
      then goes (i + 2)
          (record c { mm_address = number (i + 1); opcode = bit_or c.opcode opcode_rmm_bit })
      else if has (i + 1) && is i (codes "-WMM")
      then if has (i + 2)
        then goes (i + 3) (record c {
          mm_address = number (i + 1);
          mm_value = number (i + 2);
          opcode = bit_or c.opcode opcode_wmm_bit;
        })
        else faults
      else if is i (codes "-W")
      then if has (i + 1) then goes (i + 2) (record c { mm_width = number (i + 1) }) else faults
      else if is i (codes "-MEM")
      then goes (i + 1) (record c { mm_access_type = 0 })
      else if is i (codes "-IO")
      then goes (i + 1) (record c { mm_access_type = 1 })
      else if has (i + 3) && is i (codes "DUMPMEM")
      then goes (i + 4) (record c {
        dump_mem_address = number (i + 1);
        dump_mem_size = number (i + 2);
        dump_mem_file = take 4 (get_or argv (i + 3) []);
        opcode = bit_or c.opcode opcode_dumpmem_bit;
      })
      else if has (i + 1) && is i (codes "-RT")
      then goes (i + 2) (record c {
        mm_address = number (i + 1);
        opcode = bit_or c.opcode opcode_read_mem_test_bit;
      })
      else if has (i + 1) && is i (codes "-WT")
      then if has (i + 2)
        then goes (i + 3) (record c {
          mm_address = number (i + 1);
          mm_value = number (i + 2);
          opcode = bit_or c.opcode opcode_write_mem_test_bit;
        })
        else faults
      else goes (i + 1) c

  -- One round of the while loop at a word that is there.
  unfoldable pub option_step : ℕ → Context → Step
  option_step i c =
      let memory = memory_step i c in
      if has (i + 1) && is i (codes "RDMSR")
      then goes (i + 2) (record c {
        msr_index = number (i + 1) % 2 ^ 32;
        opcode = bit_or c.opcode opcode_rdmsr_bit;
      })
      else if has (i + 2) && is i (codes "WRMSR")
      then goes (i + 3) (record c {
        msr_index = number (i + 1) % 2 ^ 32;
        msr_value = number (i + 2);
        opcode = bit_or c.opcode opcode_wrmsr_bit;
      })
      else if has (i + 2) && is i (codes "CPUID")
      then goes (i + 3) (record c {
        cpu_id_index = number (i + 1) % 2 ^ 32;
        cpu_id_sub_index = number (i + 2) % 2 ^ 32;
        opcode = bit_or c.opcode opcode_cpuid_bit;
      })
      else if is i (codes "-A")
      then goes (i + 1) (record c { opcode = bit_or c.opcode opcode_allprocessor_bit })
      else if has (i + 1) && is i (codes "-P")
      then goes (i + 2) (record c {
        processor_index = number (i + 1);
        opcode = bit_or c.opcode opcode_processor_index_bit;
      })
      else memory

  -- The while loop on fuel. Index is a UINT8.
  unfoldable pub option_loop : ℕ → ℕ → Context → Parsed
  option_loop zero i c = running
  option_loop (suc fuel) i c =
      let next = on_step (option_loop fuel) (option_step i c) in
      if ltb (length argv) (i + 1) then parsed c else next

  -- The options that stand alone: the status to return with, or the bits of Opcode.
  unfoldable pub single_option : Status ⊎ ℕ
  single_option =
      if is 1 (codes "/H") || is 1 (codes "-H") || is 1 (codes "/?") || is 1 (codes "-?")
      then inl success
      else if is 1 (codes "/SGDT") || is 1 (codes "-SGDT")
      then inr opcode_sgdt_bit
      else if is 1 (codes "/CR") || is 1 (codes "-CR")
      then inr opcode_cr_bit
      else if is 1 (codes "/MCU") || is 1 (codes "-MCU")
      then inr opcode_ucode_bit
      else inl (error invalid_parameter)

  -- ShellAppMain up to UefiToolRoutine, with the status of GetProcessorsCpuLocation: a status to
  -- return with, or what the options come to. No word takes more than a round.
  unfoldable pub read_options : Status → ℕ → Status ⊎ Parsed
  read_options located bits =
      if efi_error located
      then inl located
      else inr (option_loop (suc (length argv)) 1 (record start { opcode = bits }))

  unfoldable pub after_single : Status → Status ⊎ ℕ → Status ⊎ Parsed
  after_single located (inl status) = inl status
  after_single located (inr bits) = read_options located bits

  unfoldable pub parse_arguments : Status → Status ⊎ Parsed
  parse_arguments located =
      if length argv == 1
      then inl (error invalid_parameter)
      else if length argv == 2
      then after_single located single_option
      else read_options located 0
