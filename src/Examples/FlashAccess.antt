-- ===== src/Examples/FlashAccess.antt =====
-- A concrete flash device for Library/PlatformFlashAccessLib/PlatformFlashAccessLib.c.
use uefi_toolkit_pkg.Base.{
  ℕ, ◌+◌, ◌-◌, ◌*◌, ◌/◌, ◌<◌, ◌≤◌, ◌≡◌, refl, true, false, ◌&&◌, arith, length, replicate, get_or,
  ltb, leb, ◌==◌, if◌then◌else◌, Bool-cases, inl, inr, Status, success,
}
use uefi_toolkit_pkg.FlashAccess.Device.{Command, program, erase, Board, block_size, Confined}
use uefi_toolkit_pkg.FlashAccess.Update.{
  relative_address, target_address, perform_flash_write_with_progress,
}
use uefi_toolkit_pkg.FlashAccess.Frame.{Inside}
use uefi_toolkit_pkg.FlashAccess.Verified.{Updated, perform_flash_write_with_progress-Updated}

abbrev execute : Command → (ℕ → ℕ) → Status × (ℕ → ℕ)
execute (program offset bytes) d = (
  success,
  λ i. if leb offset i && ltb i (offset + length bytes) then get_or bytes (i - offset) 0 else d i,
)
execute (erase offset) d =
    (success, λ i. if i / block_size == offset / block_size then 0xff else d i)

abbrev board : Board
board = record {
  Device = ℕ → ℕ;
  execute = execute;
  flash = λ d i. d i;
  pool = λ n. true;
  base = 0xff000000;
  size = 0x1000000;
}

between : (a b i : ℕ) → ((a ≤ i) × (i < b) → ⊥) → (leb a i && ltb i b) ≡ false
between a b i h = elim (Bool-cases (leb a i && ltb i b)) [
  | inl inside ↦ absurd (h (ground (arith, inside), ground (arith, inside)))
  | inr outside ↦ outside
]

board-Confined : Confined board
board-Confined (program offset bytes) d i h = rw (between offset (offset + length bytes) i h) refl
board-Confined (erase offset) d i h =
    let elsewhere : (i / block_size == offset / block_size) ≡ false =
      elim (Bool-cases (i / block_size == offset / block_size)) [
        | inl here ↦ absurd (h (ground (arith, here)))
        | inr other ↦ other
      ] in
    rw elsewhere refl

place-Inside :
    Inside board
      (target_address 0xff000000 0x2000 relative_address)
      (5000 / block_size * block_size)
unfolding target_address
place-Inside = record {
  above = omega arith;
  below = omega arith;
  aligned = omega arith;
  narrow = omega arith;
}

perform_flash_write_with_progress-Updated_example :
    Updated board true 100
      (target_address 0xff000000 0x2000 relative_address - board.base)
      (5000 / block_size * block_size)
      (replicate 5000 7)
      (λ i. 0)
      (perform_flash_write_with_progress board 0xff000000 0x2000 relative_address
        (replicate 5000 7)
        5000
        true
        0
        100
        (λ i. 0))
perform_flash_write_with_progress-Updated_example =
    perform_flash_write_with_progress-Updated board 0xff000000 0x2000 relative_address
      (replicate 5000 7) 5000 true 0 100 (λ i. 0) place-Inside board-Confined
