-- ===== src/HexToBin/Convert.antt =====
-- ProcessIntelHexFile of Application/HexToBin/HexToBin.c.
pub mod Total
pub mod Encoded
use uefi_toolkit_pkg.Base.{
  ℕ, zero, suc, ◌+◌, Bool, true, false, List, [], ◌∷◌, ◌++◌, Option, none, some, Bytes, length,
  drop, replicate, ltb, ◌==◌, if◌then◌else◌, efi_error, Status,
}
use uefi_toolkit_pkg.HexToBin.Line.{get_line}
use uefi_toolkit_pkg.HexToBin.Record.{
  Fault, bad_free, uninitialised, Result, ok, unsupported_record, no_memory, fault, ◌>>=◌, Image,
  process_line,
}

abbrev pub max_line_length : ℕ
max_line_length = 256

-- What follows a line: leave the loop with the image so far, go on, or return or fail.
unfoldable pub after_line :
    Result (Option Image) → Image → (Image → Option (Result Image)) → Option (Result Image)
after_line (ok none) image next = some (ok image)
after_line (ok (some image')) image next = next image'
after_line (unsupported_record t) image next = some (unsupported_record t)
after_line no_memory image next = some no_memory
after_line (fault e) image next = some (fault e)

-- One round of the loop on what IntelHexGetLine returned, with the next rounds. When that failed,
-- PtrLine is freed, which is uninitialised or points into SourcePtrLine.
unfoldable pub on_line :
    Status × Bytes × ℕ
    → Bytes
    → Image
    → (Bytes → Bytes → Image → Option (Result Image))
    → Option (Result Image)
on_line (status, line, len) source image next = elim (efi_error status) [
  | true ↦ some (fault bad_free)
  | false ↦ after_line (process_line line image) image (next (drop len source) line)
]

-- `while (CurrentPtr < BufferEnd)` on fuel; `none` when the fuel runs out.
unfoldable pub convert_loop : ℕ → Bytes → Bytes → Image → Option (Result Image)
convert_loop zero current line_buffer image = none
convert_loop (suc fuel) [] line_buffer image = some (ok image)
convert_loop (suc fuel) (c ∷ s) line_buffer image =
    on_line (get_line (c ∷ s) line_buffer max_line_length) (c ∷ s) image (convert_loop fuel)

-- `*BinSize = BinLength`.
unfoldable pub finish : Image → Result (Image × ℕ)
finish image = elim image.bin_length [ none ↦ fault uninitialised | some n ↦ ok (image, n) ]

-- The binary buffer, filled with 0xFF.
abbrev pub start_image : ℕ → Image
start_image size = record {
  buffer = replicate size 0xff;
  bin_length = none;
  line_number = 0;
  reports = [];
}

-- `pool` says whether AllocatePool has a block of a size; `garbage` is what the line buffer held.
unfoldable pub process_intel_hex : (ℕ → Bool) → Bytes → Bytes → Option (Result (Image × ℕ))
process_intel_hex pool garbage source =
    if pool max_line_length
    then if pool (length source)
      then elim (convert_loop (suc (length source)) source garbage (start_image (length source))) [
        | none ↦ none
        | some r ↦ some (r >>= finish)
      ]
      else some no_memory
    else some no_memory
