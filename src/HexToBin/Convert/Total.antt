-- ===== src/HexToBin/Convert/Total.antt =====
-- ProcessIntelHexFile ends on every input.
use uefi_toolkit_pkg.Base.{
  ℕ, zero, suc, ◌<◌, ◌≡◌, ◌≢◌, Bool, [], ◌∷◌, Option, none, some, arith, Bytes, length, drop,
  length-drop, Bool-cases, inl, inr, efi_error,
}
use uefi_toolkit_pkg.HexToBin.Line.{line_length, get_line}
use uefi_toolkit_pkg.HexToBin.Line.Bounds.{line_length_bounds}
use uefi_toolkit_pkg.HexToBin.Record.{
  Result, ok, unsupported_record, no_memory, fault, Image, process_line,
}
use uefi_toolkit_pkg.HexToBin.Convert.{
  max_line_length, start_image, after_line, on_line, convert_loop, process_intel_hex,
}

get_line-length : (s line : Bytes) (size : ℕ) → (get_line s line size).2 ≡ line_length s
unfolding get_line
get_line-length s line size = ground arith

after_line-ne-none :
    (r : Result (Option Image)) (image : Image) (next : Image → Option (Result Image))
    → ((i : Image) → next i ≢ none)
    → after_line r image next ≢ none
unfolding after_line
after_line-ne-none (ok none) image next h = λ e. cc
after_line-ne-none (ok (some i)) image next h = h i
after_line-ne-none (unsupported_record t) image next h = λ e. cc
after_line-ne-none no_memory image next h = λ e. cc
after_line-ne-none (fault f) image next h = λ e. cc

convert_loop-ne-none :
    (fuel : ℕ) (current line : Bytes) (image : Image)
    → length current < fuel
    → convert_loop fuel current line image ≢ none
unfolding convert_loop on_line
convert_loop-ne-none zero current line image h = absurd (omega arith)
convert_loop-ne-none (suc fuel) [] line image h = λ e. cc
convert_loop-ne-none (suc fuel) (c ∷ s) line image h =
    let got = get_line (c ∷ s) line max_line_length in
    let taken = get_line-length (c ∷ s) line max_line_length in
    let bounds = line_length_bounds (c ∷ s) (omega arith) in
    let less : length (drop got.2 (c ∷ s)) < fuel =
      omega (arith, length-drop got.2 (c ∷ s), taken, bounds) in
    elim (Bool-cases (efi_error got.0)) [
      | inl failed ↦ rw (failed, on_line) (λ e. cc)
      | inr read ↦
          rw (read, on_line)
            (after_line-ne-none (process_line got.1 image) image _
              (λ i. convert_loop-ne-none fuel (drop got.2 (c ∷ s)) got.1 i less))
    ]

-- ProcessIntelHexFile returns or faults on every source: each line takes a byte or more, so the
-- fuel, one more than the size of the source, is enough.
pub process_intel_hex-ne-none :
    (pool : ℕ → Bool) (garbage source : Bytes) → process_intel_hex pool garbage source ≢ none
unfolding process_intel_hex
process_intel_hex-ne-none pool garbage source = ground (
  arith,
  convert_loop-ne-none (suc (length source)) source garbage (start_image (length source))
      (omega arith),
)
