-- ===== src/Examples/UefiToolRoutine.antt =====
-- A machine of two processors for Application/UefiTool/UefiTool.c.
use uefi_toolkit_pkg.Base.{
  ℕ, ◌+◌, ◌*◌, ◌≡◌, refl, false, List, [], ◌∷◌, codes, same_text, bit_or, success, error, not_found,
  efi_error, ◌==◌, ◌-◌,
}
use uefi_toolkit_pkg.UefiTool.{
  Context, start, str_upr, to_upper, opcode_wrmsr_bit, opcode_allprocessor_bit, opcode_rmm_bit,
}
use uefi_toolkit_pkg.UefiTool.Machine.{Machine, Location, Tool, returned, tool_of, msr_of}
use uefi_toolkit_pkg.UefiTool.Routine.{Processors, uefi_tool_routine, ap_ut_read_msr}
use uefi_toolkit_pkg.UefiTool.Routine.Kept.{ReadsOnly, ReadsKeep}
use uefi_toolkit_pkg.UefiTool.Routine.Kept.Commands.{uefi_tool_routine-Keeps}
use uefi_toolkit_pkg.UefiTool.Routine.Everywhere.{
  EachCommand, each_msr, each_cpuid, each_signature, each_read, each_write, opcode_of, Starts,
  in_turn, procedure_of, line_of, uefi_tool_routine-in_turn, NoCommand, uefi_tool_routine-nothing,
}
use uefi_toolkit_pkg.UefiTool.Locate.{Services, info_loop, on_infos, get_processors_cpu_location}
use uefi_toolkit_pkg.UefiTool.Main.{
  exits, shell_app_main, rdmsr_all, rdmsr_context, shell_app_main-rdmsr_all,
}

-- The state counts the writes. A register holds its processor and its index.
abbrev machine : Machine ℕ
machine = record {
  read_msr = λ self i s. ((self * 1000 + i) ∷ [], s);
  write_msr = λ self i v s. s + 1;
  cpuid = λ self i s. (self ∷ i ∷ 0 ∷ 0 ∷ [], s);
  cpuid_ex = λ self i j s. (self ∷ i ∷ j ∷ 0 ∷ [], s);
  read_gdtr = λ self s. (7 ∷ 8 ∷ [], s);
  read_cr = λ self n s. (n ∷ [], s);
  mmio_read = λ self width a s. (a ∷ [], s);
  mmio_write = λ self width a v s. s + 1;
  io_read = λ self width a s. (a ∷ [], s);
  io_write = λ self width a v s. s + 1;
  startup_this_ap = λ i procedure initial s. procedure i s;
  file_exists = λ name s. error not_found;
  delete_file = λ name s. s;
  open_file = λ name s. (success, s);
  write_file = λ name size address s. (success, s);
  close_file = λ s. s;
}

abbrev location : ℕ → Location
location i = record { socket = 0; core = i; thread = 0 }

abbrev processors : Processors
processors = record { locations = location 0 ∷ location 1 ∷ []; number = 2; bsp = 0 }

abbrev context : Context
context = record start { msr_index = 16; processor_index = 2; mm_address = 64 }

abbrev tool : Tool ℕ
tool = record { machine = 5; lines = [] }

machine-ReadsKeep : ReadsKeep (λ s. s ≡ 5) machine
machine-ReadsKeep = record {
  read_msr = λ self i s h. h;
  cpuid_ex = λ self i j s h. h;
  read_gdtr = λ self s h. h;
  read_cr = λ self n s h. h;
  mmio_read = λ self width a s h. h;
  io_read = λ self width a s h. h;
  startup_this_ap = λ i procedure initial keeps s h. keeps i s h;
  delete_file = λ name s h. h;
  open_file = λ name s h. h;
  write_file = λ name size address s h. h;
  close_file = λ s h. h;
}

read-ReadsOnly : ReadsOnly opcode_rmm_bit
read-ReadsOnly = record { no_wrmsr = refl; no_wmm = refl; no_ucode = refl; no_write_test = refl }

uefi_tool_routine-Keeps_example :
    (tool_of (uefi_tool_routine machine context processors opcode_rmm_bit tool)).machine ≡ 5
uefi_tool_routine-Keeps_example =
    uefi_tool_routine-Keeps (λ s. s ≡ 5) machine context processors machine-ReadsKeep opcode_rmm_bit
      tool read-ReadsOnly refl

machine-Starts : Starts machine context 0
machine-Starts = record { runs = λ i procedure initial s other. refl }

uefi_tool_routine-in_turn_example :
    uefi_tool_routine machine context processors (opcode_of each_msr) tool
    ≡ returned success (
        in_turn machine context
          (procedure_of machine context each_msr)
          (line_of machine context each_msr)
          0
          (location 0 ∷ location 1 ∷ [])
          tool)
uefi_tool_routine-in_turn_example =
    uefi_tool_routine-in_turn machine context processors machine-Starts each_msr tool refl

in_turn_run :
    in_turn machine context
      (procedure_of machine context each_msr)
      (line_of machine context each_msr)
      0
      (location 0 ∷ location 1 ∷ [])
      tool
    ≡ record {
      machine = 5;
      lines = msr_of 16 0 (location 0) (16 ∷ []) ∷ msr_of 16 1 (location 1) (1016 ∷ []) ∷ [];
    }
unfolding in_turn procedure_of line_of ap_ut_read_msr
in_turn_run = refl

abbrev wrmsr_all : ℕ
wrmsr_all = bit_or opcode_wrmsr_bit opcode_allprocessor_bit

no_each : (k : EachCommand) → (wrmsr_all == opcode_of k) ≡ false
unfolding opcode_of
no_each each_msr = refl
no_each each_cpuid = refl
no_each each_signature = refl
no_each each_read = refl
no_each each_write = refl

wrmsr_all-NoCommand : NoCommand machine context processors wrmsr_all
wrmsr_all-NoCommand = record {
  no_access = refl;
  none_single = (refl, (refl, (refl, (refl, (refl, (refl, tt))))));
  none_on_one = refl;
  none_on_each = no_each;
}

uefi_tool_routine-nothing_example :
    uefi_tool_routine machine context processors wrmsr_all tool ≡ returned success tool
uefi_tool_routine-nothing_example =
    uefi_tool_routine-nothing machine context processors wrmsr_all tool wrmsr_all-NoCommand

abbrev services : Services
services = record {
  locate_protocol = success;
  get_number_of_processors = (success, 2);
  info_size = 24;
  allocate_pool = λ size. success;
  get_processor_info = λ i. (success, location i);
  who_am_i = (success, 0);
}

-- The number that two digits stand for.
abbrev hex : List ℕ → ℕ
hex (a ∷ b ∷ []) = 16 * (a - 48) + (b - 48)
hex _ = 0

abbrev words : List (List ℕ)
words = rdmsr_all hex (codes "UefiTool") (codes "rdmsr") (codes "10") (codes "-a")

abbrev words_context : Context
words_context = rdmsr_context hex (codes "UefiTool") (codes "rdmsr") (codes "10") (codes "-a")

rdmsr_word : str_upr (codes "rdmsr") ≡ codes "RDMSR"
unfolding str_upr to_upper
rdmsr_word = refl

all_word : str_upr (codes "-a") ≡ codes "-A"
unfolding str_upr to_upper
all_word = refl

services_found : efi_error (get_processors_cpu_location services).status ≡ false
unfolding get_processors_cpu_location on_infos info_loop
services_found = refl

words-Starts : Starts machine words_context (get_processors_cpu_location services).processors.bsp
words-Starts = record { runs = λ i procedure initial s other. refl }

shell_app_main-rdmsr_all_example :
    shell_app_main machine hex same_text services words tool
    ≡ exits success (
        in_turn machine words_context
          (λ self. machine.read_msr self 16)
          (msr_of 16)
          0
          (get_processors_cpu_location services).processors.locations
          tool)
shell_app_main-rdmsr_all_example =
    shell_app_main-rdmsr_all hex (codes "UefiTool") (codes "rdmsr") (codes "10") (codes "-a")
      rdmsr_word all_word machine services tool services_found words-Starts
