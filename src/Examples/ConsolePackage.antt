-- ===== src/Examples/ConsolePackage.antt =====
-- Options and positional parameters, for Drivers/Dxe/UefiConsole/ConsoleParameters.c.
use uefi_toolkit_pkg.Base.{
  ◌≡◌, refl, true, false, List, [], ◌∷◌, none, some, codes, same_text, take, length, success, arith,
}
use uefi_toolkit_pkg.UefiConsole.Package.{
  type_value, on_known, on_unknown, on_other, on_value, on_position, unescaped, on_checked,
  on_argument, argument_loop, get_flag, get_value, get_raw_value, find_named, find_position,
  ParamItem, Param, Compare, PackagePool, values_wanted, on_items, is_on_check_list, is_flag,
  command_line_parse,
}
use uefi_toolkit_pkg.UefiConsole.Reset.{
  reset_warm, reset_system, choose_reset, on_reset_package, shell_command_run_reset,
}
use uefi_toolkit_pkg.UefiConsole.Numbers.Spelling.{hexadecimal, decimal}
use uefi_toolkit_pkg.UefiConsole.Mem.{
  MmioServices, shows_memory, mem_param_list, shell_command_run_mem,
}
use uefi_toolkit_pkg.UefiConsole.Mem.Ranged.{shell_command_run_mem-Spelled}
use uefi_toolkit_pkg.UefiConsole.Package.Pieces.{Piece, option, positional, line_words, Plain}
use uefi_toolkit_pkg.UefiConsole.Package.Read.{Reads, command_line_parse-Reads}

abbrev compare : Compare
compare = record {
  equal = same_text;
  equal_no_case = same_text;
  begins = λ a b. same_text (take (length b) a) b;
}

abbrev pool : PackagePool
pool = record {
  head_room = true;
  node_room = λ i. true;
  text_room = λ i. true;
  temp_room = λ name. true;
}

-- -w with a value, as of the command reset.
abbrev check_list : List ParamItem
check_list = record { name = codes "-w"; type = type_value } ∷ []

abbrev mem : Piece
mem = positional (codes "mem")

abbrev wide : Piece
wide = option (codes "-w") type_value (codes "ab" ∷ [])

is_option : is_on_check_list compare pool check_list (codes "-w") ≡ some type_value
unfolding is_on_check_list on_items same_text
is_option = refl

mem-Plain : Plain compare pool check_list false false (codes "mem")
unfolding is_on_check_list on_items same_text is_flag
mem-Plain = (refl, refl)

ab-Plain : Plain compare pool check_list false false (codes "ab")
unfolding is_on_check_list on_items same_text is_flag
ab-Plain = (refl, refl)

one_value : values_wanted type_value ≡ 1
unfolding values_wanted
one_value = refl

command_line_parse-Reads_example :
    (items : List Param) × (command_line_parse compare pool check_list false
        (line_words (mem ∷ wide ∷ []))
      ≡ (success, some items, none))
    × Reads compare pool (mem ∷ wide ∷ []) items
command_line_parse-Reads_example =
    command_line_parse-Reads compare pool check_list false mem (wide ∷ []) refl (λ i. refl)
      (λ i. refl) (mem-Plain, ((is_option, one_value, (ab-Plain, tt)), tt))

-- `reset -w ab` is a warm reset with its text.
reset_run :
    shell_command_run_reset compare pool (record {
      argv = some (codes "reset" ∷ codes "-w" ∷ codes "ab" ∷ []);
      argc = 3;
      dangling = false;
    })
    ≡ reset_system reset_warm (some (codes "ab"))
unfolding shell_command_run_reset on_reset_package choose_reset command_line_parse argument_loop
    on_argument on_checked on_known on_unknown on_other on_value on_position unescaped
    is_on_check_list on_items is_flag values_wanted get_flag get_value get_raw_value find_named
    find_position same_text
reset_run = refl

name-Plain : Plain compare pool mem_param_list false false (codes "mem")
unfolding is_on_check_list on_items same_text is_flag
name-Plain = (refl, refl)

address-Plain : Plain compare pool mem_param_list false false (codes "1000")
unfolding is_on_check_list on_items same_text is_flag
address-Plain = (refl, refl)

size-Plain : Plain compare pool mem_param_list false false (codes "20")
unfolding is_on_check_list on_items same_text is_flag
size-Plain = (refl, refl)

abbrev services : MmioServices
services = record { located = success; buffer_room = λ n. true; read = λ a n. success }

shell_command_run_mem-Spelled_example :
    shell_command_run_mem compare pool services 0 (record {
      argv = some (codes "mem" ∷ codes "1000" ∷ codes "20" ∷ []);
      argc = 3;
      dangling = false;
    })
    ≡ some (0, shows_memory 0x1000 0x20)
shell_command_run_mem-Spelled_example =
    shell_command_run_mem-Spelled compare pool services 0
      (record {
        argv = some (codes "mem" ∷ codes "1000" ∷ codes "20" ∷ []);
        argc = 3;
        dangling = false;
      })
      (codes "mem") (codes "1000") (codes "20") 0x1000 20 0x20 refl (λ i. refl) (λ i. refl) refl
      (name-Plain, (address-Plain, (size-Plain, tt))) (hexadecimal 49 (codes "000") (omega arith))
      (decimal 50 (codes "0") (omega arith)) (hexadecimal 50 (codes "0") (omega arith))
      (omega arith) (omega arith) (omega arith)
