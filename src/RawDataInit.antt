-- ===== src/RawDataInit.antt =====
-- Drivers/Pei/RawDataInit/RawDataInit.c: a dump of a raw section. The PEI services and the section
-- headers are parameters. Its DumpHex has the text of that of PartEdit.c, whose model it uses.
pub mod First
use uefi_toolkit_pkg.Base.{
  ℕ, ◌+◌, ◌-◌, ◌%◌, ◌^◌, Bool, true, false, List, [], ◌∷◌, Option, none, some, and_then, Bytes,
  ◌==◌, if◌then◌else◌, Status, success, error, efi_error,
}
use uefi_toolkit_pkg.PartEdit.Dump.{Line, dump_hex}

-- What stands before the data of a section: for a header of a size, the type, and what IS_SECTION2,
-- SECTION2_SIZE and SECTION_SIZE make of it.
pub record Section : Type 0 where
  pub header_type : ℕ → ℕ
  pub is_section2 : ℕ → Bool
  pub section2_size : ℕ → ℕ
  pub section_size : ℕ → ℕ

-- The sizes of EFI_COMMON_SECTION_HEADER and EFI_COMMON_SECTION_HEADER2, and EFI_SECTION_RAW.
pub record Headers : Type 0 where
  pub header_size : ℕ
  pub header2_size : ℕ
  pub section_raw : ℕ

-- A firmware volume: what the search for the file and that for its raw section return, and the data
-- of the section from its start to the end of the memory that can be read.
pub record Volume : Type 0 where
  pub find_file : Status
  pub find_section : Status
  pub section : Section
  pub section_bytes : Bytes

-- GetSectionSize; a failed ASSERT has no result.
unfoldable pub get_section_size : Headers → ℕ → Section → Option ℕ
get_section_size h section_type s =
    let n = if s.header_type h.header_size == section_type then h.header_size else h.header2_size in
    let size = if s.is_section2 n then s.section2_size n else s.section_size n in
    if s.header_type n == section_type then some ((size + 2 ^ 64 - n) % 2 ^ 64) else none

-- What GetRawImage returns: the status, and *Buffer with *Size, if they are set.
pub record RawImage : Type 0 where
  pub status : Status
  pub image : Option (Bytes × ℕ)

-- GetRawImage over the volumes, with the error of the search for one more.
unfoldable pub get_raw_image : Headers → Status → List Volume → Option RawImage
get_raw_image h no_more [] = some (record { status = no_more; image = none })
get_raw_image h no_more (v ∷ volumes) =
    let next = get_raw_image h no_more volumes in
    let found =
      and_then (get_section_size h h.section_raw v.section)
        (λ size. some (record { status = v.find_section; image = some (v.section_bytes, size) })) in
    if efi_error v.find_file then next else if efi_error v.find_section then next else found

-- DumpHex of what *Buffer points to; an unset Buffer has no result.
unfoldable pub dump_image : Option (Bytes × ℕ) → Option (List Line)
dump_image none = none
dump_image (some image) = dump_hex 0 0x100 image.0

-- RawDataInitAtEndOfPei: the status and what is printed.
unfoldable pub raw_data_init_at_end_of_pei :
    Headers → Status → List Volume → Option (Status × List Line)
raw_data_init_at_end_of_pei h no_more volumes = and_then (get_raw_image h no_more volumes) (λ r.
    let dumped = and_then (dump_image r.image) (λ lines. some (r.status, lines)) in
    if efi_error r.status then some (r.status, []) else dumped)

-- RawDataInitEntryPoint: the status of PeiServicesNotifyPpi.
unfoldable pub raw_data_init_entry_point : Status → Status
raw_data_init_entry_point notified = if efi_error notified then notified else notified
