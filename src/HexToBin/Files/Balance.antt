-- ===== src/HexToBin/Files/Balance.antt =====
-- What HexToBin does with files and memory.
use uefi_toolkit_pkg.Base.{
  ℕ, suc, ◌+◌, ◌≡◌, refl, Bool, true, false, List, [], ◌∷◌, ◌++◌, none, some, arith, Bytes, All,
  length, take, if◌then◌else◌, success, efi_error,
}
use uefi_toolkit_pkg.HexToBin.Record.Encoded.{DataRecord, Fits}
use uefi_toolkit_pkg.HexToBin.Convert.{start_image}
use uefi_toolkit_pkg.HexToBin.Convert.Encoded.{
  hex_file, write_records, last_end, process_intel_hex-hex_file,
}
use uefi_toolkit_pkg.HexToBin.Files.{
  Shell, Event, opened, closed, deleted, wrote, allocated, freed, read_file_from_disk,
  save_file_to_disk, returned, on_saved, save_result, on_content, shell_app_main,
}

abbrev pub opens : List Event → ℕ
opens [] = 0
opens (opened n ∷ es) = suc (opens es)
opens (_ ∷ es) = opens es

abbrev pub closes : List Event → ℕ
closes [] = 0
closes (closed n ∷ es) = suc (closes es)
closes (_ ∷ es) = closes es

abbrev pub allocations : List Event → ℕ
allocations [] = 0
allocations (allocated ∷ es) = suc (allocations es)
allocations (_ ∷ es) = allocations es

abbrev pub frees : List Event → ℕ
frees [] = 0
frees (freed ∷ es) = suc (frees es)
frees (_ ∷ es) = frees es

-- On every path ReadFileFromDisk closes the file it opened; it hands out a buffer exactly when it
-- returns EFI_SUCCESS, and, provided the boot service sets no buffer when it fails, frees the
-- buffer on every other path.
pub read_file_from_disk-balanced :
    (sh : Shell) (name : Bytes)
    → ((n : ℕ) → efi_error (sh.allocate_pool n).0 ≡ true → (sh.allocate_pool n).1 ≡ false)
    → let r = read_file_from_disk sh name in
      (opens r.2 ≡ closes r.2)
      × (allocations r.2 ≡ frees r.2 + elim r.1 [ none ↦ 0 | some b ↦ 1 ])
      × (efi_error r.0 ≡ elim r.1 [ none ↦ true | some b ↦ false ])
unfolding read_file_from_disk
read_file_from_disk-balanced sh name honest = ground (arith, honest (sh.file_size name).1)

-- What the calls answer when everything works: `source` holds `content`.
pub record Works (sh : Shell) (source out content : Bytes) : Type 0 where
  pub source_opens : efi_error (sh.open_file source) ≡ false
  pub out_opens : efi_error (sh.open_file out) ≡ false
  pub sized : sh.file_size source ≡ (success, length content)
  pub memory : (n : ℕ) → sh.allocate_pool n ≡ (success, true)
  pub reads : sh.read_file source (length content) ≡ (success, content)
  pub writes : (b : Bytes) → efi_error (sh.write_file out b) ≡ false

read_file_from_disk-content :
    (sh : Shell) (source out content : Bytes)
    → Works sh source out content
    → read_file_from_disk sh source
      ≡ (success, some content, opened source ∷ allocated ∷ closed source ∷ [])
unfolding read_file_from_disk
read_file_from_disk-content sh source out content w =
    rw (w.source_opens, w.sized, w.memory (length content), w.reads, read_file_from_disk) refl

-- Given a file of one or more data records that fit, and calls that all work, the application
-- returns EFI_SUCCESS: it replaces the output file by the image's bytes up to the end of the last
-- record, and leaves both files closed.
pub shell_app_main-converts :
    (sh : Shell) (garbage name source out : Bytes) (r : DataRecord) (rs : List DataRecord)
    → let content = hex_file (r ∷ rs) in
      All (Fits (length content)) (r ∷ rs)
      → Works sh source out content
      → shell_app_main sh garbage (name ∷ source ∷ out ∷ []) ≡ (
        returned success,
        (opened source ∷ allocated ∷ closed source ∷ [])
            ++ ((if efi_error (sh.file_exists out) then [] else deleted out ∷ [])
                ++ opened out
                  ∷ wrote out (
                      take
                        (last_end r rs)
                        (write_records (r ∷ rs) (start_image (length content))).buffer)
                  ∷ closed out
                  ∷ []),
      )
unfolding shell_app_main on_content on_saved save_result save_file_to_disk
shell_app_main-converts sh garbage name source out r rs fits w =
    let content = hex_file (r ∷ rs) in
    let pool : ℕ → Bool = λ n. (sh.allocate_pool n).1 in
    let memory : (n : ℕ) → pool n ≡ true = λ n. rw (w.memory n) refl in
    let image = write_records (r ∷ rs) (start_image (length content)) in
    rw
      (
        read_file_from_disk-content sh source out content w,
        process_intel_hex-hex_file pool garbage r rs memory fits,
        w.out_opens,
        w.writes (take (last_end r rs) image.buffer),
      )
      refl
