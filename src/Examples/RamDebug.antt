-- ===== src/Examples/RamDebug.antt =====
-- A small region for Library/RamDebugLib/RamDebugLib.c.
use uefi_toolkit_pkg.Base.{◌≡◌, refl, true, [], ◌∷◌, ◌++◌, List, Bytes, arith, codes, replicate}
use uefi_toolkit_pkg.RamDebug.{
  outside, ran, Ram, Setup, header_id, ram_debug_print, on_index, save_record, save,
  ram_debug_clean_up, move, remove_records, ram_debug_get_record_size, ram_debug_get_latest_index,
  on_filled, fill, write_latest, write_sig, write8, read8, buffer_size,
}
use uefi_toolkit_pkg.RamDebug.Log.{represent, Texts}
use uefi_toolkit_pkg.RamDebug.Print.{Active, logged}
use uefi_toolkit_pkg.RamDebug.Refine.{ram_debug_print-represent}
use uefi_toolkit_pkg.RamDebug.Newest.{newest, ram_debug_prints, ram_debug_prints-newest}
use uefi_toolkit_pkg.RamDebug.Overrun.{ram_debug_print-overrun}

abbrev setup : Setup
setup = record { base = 0x80000; size = 24; writable = true; cmos = 0xff }

abbrev blank : Ram
blank = record { sig = 0; latest_idx = 7; buffer = replicate 8 0 }

-- Two records fit; the third moves the oldest out.
abbrev full : Ram
full = record { sig = header_id; latest_idx = 7; buffer = codes "abc\0de\0" ++ 0xcc ∷ [] }

print_over :
    ram_debug_print setup (codes "f\0") 1 full
    ≡ ran (record {
      sig = header_id;
      latest_idx = 5;
      buffer = codes "de\0f\0" ++ 0xcc ∷ 0xcc ∷ 0xcc ∷ [];
    })
unfolding ram_debug_print on_index save_record save ram_debug_clean_up move remove_records
    ram_debug_get_record_size ram_debug_get_latest_index on_filled fill write_latest write_sig
    write8 read8 buffer_size
print_over = refl

setup-Active : Active setup
setup-Active = record {
  placed = refl;
  some_size = omega arith;
  narrow = omega arith;
  writable = refl;
  enabled = refl;
}

abbrev two_records : List Bytes
two_records = codes "abc" ∷ codes "de" ∷ []

two_records-Texts : Texts two_records
two_records-Texts =
    ((ground arith, (ground arith, (ground arith, tt))), ((ground arith, (ground arith, tt)), tt))

ram_debug_print-represent_example :
    ram_debug_print setup (codes "f" ++ 0 ∷ []) 1 (represent 8 two_records)
    ≡ ran (represent 8 (logged 8 two_records (codes "f")))
ram_debug_print-represent_example =
    ram_debug_print-represent setup two_records (codes "f") setup-Active two_records-Texts
      (omega arith) (omega arith)

ram_debug_prints-newest_example :
    ram_debug_prints setup (codes "abc" ∷ codes "de" ∷ codes "f" ∷ []) blank
    ≡ ran (represent 8 (newest 8 (codes "abc" ∷ codes "de" ∷ codes "f" ∷ [])))
ram_debug_prints-newest_example =
    ram_debug_prints-newest setup (codes "abc") (codes "de" ∷ codes "f" ∷ []) blank setup-Active
      refl refl
      (
        ((ground arith, (ground arith, (ground arith, tt))), omega arith),
        (
          ((ground arith, (ground arith, tt)), omega arith),
          (((ground arith, tt), omega arith), tt),
        ),
      )

newest_two : newest 8 (codes "abc" ∷ codes "de" ∷ codes "f" ∷ []) ≡ codes "de" ∷ codes "f" ∷ []
unfolding newest
newest_two = refl

ram_debug_print-overrun_example :
    ram_debug_print setup (codes "12345678" ++ 0 ∷ []) 8 (represent 8 two_records) ≡ outside
ram_debug_print-overrun_example =
    ram_debug_print-overrun setup two_records (codes "12345678") setup-Active two_records-Texts
      (omega arith) refl
