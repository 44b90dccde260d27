-- ===== src/RawDataInit/First.antt =====
-- The end of PEI in RawDataInit.c.
use uefi_toolkit_pkg.Base.{
  ℕ, ◌≤◌, ◌<◌, ◌≡◌, refl, true, false, ◌||◌, List, [], ◌∷◌, ◌++◌, Option, some, arith, Bytes, All,
  length, take, Bool-cases, inl, inr, Status, efi_error,
}
use uefi_toolkit_pkg.PartEdit.Dump.{Line, dump_hex}
use uefi_toolkit_pkg.PartEdit.Dump.Lines.{Shows, dump_hex-Shows}
use uefi_toolkit_pkg.RawDataInit.{
  Headers, Volume, get_section_size, get_raw_image, dump_image, raw_data_init_at_end_of_pei,
}

-- A volume without the file or without its raw section.
abbrev pub Lacking : Volume → Type 0
Lacking v = (efi_error v.find_file || efi_error v.find_section) ≡ true

-- A volume with both, whose section header says `size`.
pub record Found (h : Headers) (size : ℕ) (v : Volume) : Type 0 where
  pub file : efi_error v.find_file ≡ false
  pub section : efi_error v.find_section ≡ false
  pub sized : get_section_size h h.section_raw v.section ≡ some size

get_raw_image-first :
    (h : Headers) (no_more : Status) (skipped rest : List Volume) (v : Volume) (size : ℕ)
    → All Lacking skipped
    → Found h size v
    → get_raw_image h no_more (skipped ++ v ∷ rest)
      ≡ some (record { status = v.find_section; image = some (v.section_bytes, size) })
unfolding get_raw_image
get_raw_image-first h no_more [] rest v size lacking found =
    rw (found.file, found.section, found.sized) refl
get_raw_image-first h no_more (u ∷ skipped) rest v size lacking found =
    let next = get_raw_image-first h no_more skipped rest v size lacking.1 found in
    elim (Bool-cases (efi_error u.find_file)) [
      | inl failed ↦ rw failed next
      | inr opened ↦
          let no_section : efi_error u.find_section ≡ true = ground (arith, lacking.0, opened) in
          rw (opened, no_section) next
    ]

dump_steps :
    (h : Headers) (no_more status : Status) (volumes : List Volume) (bytes : Bytes) (size : ℕ)
    (lines : List Line)
    → get_raw_image h no_more volumes
      ≡ some (record { status = status; image = some (bytes, size) })
    → efi_error status ≡ false
    → dump_hex 0 256 bytes ≡ some lines
    → raw_data_init_at_end_of_pei h no_more volumes ≡ some (status, lines)
unfolding raw_data_init_at_end_of_pei dump_image
dump_steps h no_more status volumes bytes size lines image fine dumped =
    rw (image, fine, dumped) refl

-- What the call prints for a section.
pub record Dumped (status : Status) (bytes : Bytes) (r : Option (Status × List Line)) : Type 0 where
  pub lines : List Line
  pub returns : r ≡ some (status, lines)
  pub shows : Shows (take 256 bytes) (some lines)

-- RawDataInitAtEndOfPei takes the first volume that has both the file and a raw section in it, and
-- prints the first 256 bytes of the section's data, if so many can be read, whatever its size is.
pub raw_data_init_at_end_of_pei-Dumped :
    (h : Headers) (no_more : Status) (skipped rest : List Volume) (v : Volume) (size : ℕ)
    → All Lacking skipped
    → Found h size v
    → 256 ≤ length v.section_bytes
    → All (λ b. b < 256) v.section_bytes
    → Dumped v.find_section v.section_bytes
        (raw_data_init_at_end_of_pei h no_more (skipped ++ v ∷ rest))
raw_data_init_at_end_of_pei-Dumped h no_more skipped rest v size lacking found enough small =
    let s = dump_hex-Shows 0 256 v.section_bytes enough small in
    record {
      lines = s.lines;
      returns =
          dump_steps h no_more v.find_section (skipped ++ v ∷ rest) v.section_bytes size s.lines
            (get_raw_image-first h no_more skipped rest v size lacking found) found.section
            s.returns;
      shows = record { lines = s.lines; returns = refl; shows = s.shows; fits = s.fits };
    }
