-- ===== src/Examples/RawDataInit.antt =====
-- Two volumes for Drivers/Pei/RawDataInit/RawDataInit.c.
use uefi_toolkit_pkg.Base.{
  ℕ, zero, suc, ◌<◌, ◌≡◌, refl, false, [], ◌∷◌, ◌++◌, none, some, arith, Bytes, All, replicate,
  success, error, not_found,
}
use uefi_toolkit_pkg.RawDataInit.{
  Section, Headers, Volume, get_section_size, get_raw_image, raw_data_init_at_end_of_pei,
  dump_image,
}
use uefi_toolkit_pkg.RawDataInit.First.{Dumped, raw_data_init_at_end_of_pei-Dumped}
use uefi_toolkit_pkg.PartEdit.Dump.{dump_hex, dump_loop}

abbrev headers : Headers
headers = record { header_size = 4; header2_size = 8; section_raw = 0x19 }

abbrev section : Section
section = record {
  header_type = λ n. 0x19;
  is_section2 = λ n. false;
  section2_size = λ n. 0;
  section_size = λ n. 304;
}

abbrev with_data : Bytes → Volume
with_data bytes = record {
  find_file = success;
  find_section = success;
  section = section;
  section_bytes = bytes;
}

abbrev without_file : Volume
without_file = record (with_data []) { find_file = error not_found }

abbrev three_hundred : Bytes
three_hundred = replicate 300 0x5a

bytes_small : (n : ℕ) → All (λ b. b < 256) (replicate n 0x5a)
bytes_small zero = tt
bytes_small (suc n) = (omega arith, bytes_small n)

section_size_run : get_section_size headers 0x19 section ≡ some 300
unfolding get_section_size
section_size_run = refl

raw_data_init_at_end_of_pei-Dumped_example : Dumped success three_hundred (
    raw_data_init_at_end_of_pei headers
      (error not_found)
      ((without_file ∷ []) ++ with_data three_hundred ∷ []))
raw_data_init_at_end_of_pei-Dumped_example =
    raw_data_init_at_end_of_pei-Dumped headers (error not_found) (without_file ∷ []) []
      (with_data three_hundred) 300 (refl, tt)
      (record { file = refl; section = refl; sized = section_size_run }) (omega arith)
      (bytes_small 300)

-- A section of fewer bytes than 256: the dump reads behind it.
short_section :
    raw_data_init_at_end_of_pei headers (error not_found) (with_data (replicate 10 0x5a) ∷ [])
    ≡ none
unfolding raw_data_init_at_end_of_pei get_raw_image get_section_size dump_image dump_hex dump_loop
short_section = refl
