-- ===== src/Examples/HexToBin.antt =====
-- Concrete inputs for the converter of Application/HexToBin/HexToBin.c.
use uefi_toolkit_pkg.Base.{
  ◌≡◌, ◌≢◌, refl, true, [], ◌∷◌, ◌++◌, none, some, arith, Bytes, length, take, replicate,
  if◌then◌else◌, codes, success, efi_error,
}
use uefi_toolkit_pkg.HexToBin.Record.{ok, fault, over_write, process_line}
use uefi_toolkit_pkg.HexToBin.Record.Encoded.{DataRecord, Fits, encode}
use uefi_toolkit_pkg.HexToBin.Record.Overflow.{process_line_overflow}
use uefi_toolkit_pkg.HexToBin.Convert.{process_intel_hex, start_image}
use uefi_toolkit_pkg.HexToBin.Convert.Total.{process_intel_hex-ne-none}
use uefi_toolkit_pkg.HexToBin.Convert.Encoded.{
  hex_file, write_records, last_end, process_intel_hex-hex_file,
}
use uefi_toolkit_pkg.HexToBin.Files.{
  Shell, opened, closed, deleted, wrote, allocated, returned, shell_app_main,
}
use uefi_toolkit_pkg.HexToBin.Files.Balance.{Works, shell_app_main-converts}

abbrev first : DataRecord
first = record { address = 3; bytes = 0xde ∷ 0xad ∷ [] }

abbrev second : DataRecord
second = record { address = 0; bytes = 7 ∷ [] }

abbrev content : Bytes
content = hex_file (first ∷ second ∷ [])

first-Fits : Fits (length content) first
first-Fits = record {
  all_bytes = (omega arith, (omega arith, tt));
  some_bytes = omega arith;
  short = omega arith;
  near = omega arith;
  inside = omega arith;
}

second-Fits : Fits (length content) second
second-Fits = record {
  all_bytes = (omega arith, tt);
  some_bytes = omega arith;
  short = omega arith;
  near = omega arith;
  inside = omega arith;
}

abbrev shell : Shell
shell = record {
  file_exists = λ name. success;
  open_file = λ name. success;
  file_size = λ name. (success, length content);
  allocate_pool = λ n. (success, true);
  read_file = λ name n. (success, content);
  write_file = λ name bytes. success;
}

shell-Works : Works shell (codes "a.hex") (codes "a.bin") content
shell-Works = record {
  source_opens = refl;
  out_opens = refl;
  sized = refl;
  memory = λ n. refl;
  reads = refl;
  writes = λ b. refl;
}

-- A single record with address 0x1000: the binary has 26 bytes.
abbrev far : DataRecord
far = record { address = 0x1000; bytes = 1 ∷ [] }

process_line_overflow_example :
    process_line (encode far ++ 0x0d ∷ 0x0a ∷ []) (start_image 26) ≡ fault over_write
process_line_overflow_example =
    process_line_overflow far (start_image 26) (0x0d ∷ 0x0a ∷ []) (omega arith) (omega arith)
      (omega arith) (omega arith, tt) (omega arith)

process_intel_hex-ne-none_example :
    process_intel_hex (λ n. true) (replicate 256 0) (codes ":0") ≢ none
process_intel_hex-ne-none_example =
    process_intel_hex-ne-none (λ n. true) (replicate 256 0) (codes ":0")

process_intel_hex-hex_file_example :
    process_intel_hex (λ n. true) (replicate 256 0) content
    ≡ some (
        ok (
          write_records (first ∷ second ∷ []) (start_image (length content)),
          last_end first (second ∷ []),
        ))
process_intel_hex-hex_file_example =
    process_intel_hex-hex_file (λ n. true) (replicate 256 0) first (second ∷ []) (λ n. refl)
      (first-Fits, (second-Fits, tt))

shell_app_main-converts_example :
    shell_app_main shell (replicate 256 0) (codes "HexToBin" ∷ codes "a.hex" ∷ codes "a.bin" ∷ [])
    ≡ (
      returned success,
      (opened (codes "a.hex") ∷ allocated ∷ closed (codes "a.hex") ∷ [])
          ++ ((if efi_error (shell.file_exists (codes "a.bin"))
                then []
                else deleted (codes "a.bin") ∷ [])
              ++ opened (codes "a.bin")
                ∷ wrote (codes "a.bin") (
                    take
                      (last_end first (second ∷ []))
                      (write_records (first ∷ second ∷ []) (start_image (length content))).buffer)
                ∷ closed (codes "a.bin")
                ∷ []),
    )
shell_app_main-converts_example =
    shell_app_main-converts shell (replicate 256 0) (codes "HexToBin") (codes "a.hex")
      (codes "a.bin") first (second ∷ []) (first-Fits, (second-Fits, tt)) shell-Works
