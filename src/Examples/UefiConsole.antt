-- ===== src/Examples/UefiConsole.antt =====
-- Numbers and a list of commands for Drivers/Dxe/UefiConsole.
use uefi_toolkit_pkg.Base.{◌≡◌, refl, true, false, [], some, codes, success, arith, inl}
use uefi_toolkit_pkg.UefiConsole.Numbers.{stores, convert_string_to_uint64}
use uefi_toolkit_pkg.UefiConsole.Numbers.Spelling.{Spelled, prefixed, decimal}
use uefi_toolkit_pkg.UefiConsole.Numbers.Converted.{convert_string_to_uint64-Spelled}

x10_Spelled : Spelled false (codes "0x10") 16
x10_Spelled =
    prefixed false 120 (codes "10") refl
      (inl (omega arith, omega arith), (inl (omega arith, omega arith), tt))

convert_string_to_uint64-Spelled_example :
    convert_string_to_uint64 0 true false false (some (codes "0x10")) ≡ (success, stores 16)
convert_string_to_uint64-Spelled_example =
    convert_string_to_uint64-Spelled 0 false false (codes "0x10") 16 x10_Spelled

five_Spelled : Spelled false (codes "5") 5
five_Spelled = decimal 53 [] ((omega arith, omega arith), tt)
