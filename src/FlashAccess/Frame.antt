-- ===== src/FlashAccess/Frame.antt =====
-- One block: what SpiFlashBlockErase, SpiFlashWrite and the comparison do to it and to the rest.
use uefi_toolkit_pkg.Base.{
  ℕ, zero, suc, ◌+◌, ◌-◌, ◌%◌, ◌^◌, ◌≤◌, ◌<◌, ◌≡◌, ◌⊎◌, refl, sym, ap, ◌∙◌, true, false, [], ◌∷◌,
  arith, Bytes, take, get_or, same_text-eq, leb, if◌then◌else◌, Status, success, warning, error,
  efi_error,
}
use uefi_toolkit_pkg.FlashAccess.Device.{program, erase, Board, block_size}
use uefi_toolkit_pkg.FlashAccess.Spi.{
  Flow, returns, spi_flash_read, chunk, on_command, write_loop, spi_flash_write, erase_loop,
  spi_flash_block_erase, internal_erase_block, internal_compare_block, internal_write_block,
}

get_or-take : (n : ℕ) (xs : Bytes) (i : ℕ) → i < n → get_or (take n xs) i 0 ≡ get_or xs i 0
get_or-take zero xs i h = absurd (omega arith)
get_or-take (suc n) [] i h = refl
get_or-take (suc n) (x ∷ xs) zero h = refl
get_or-take (suc n) (x ∷ xs) (suc i) h = get_or-take n xs i (omega arith)

-- An address at a block boundary of the flash area, from which `n` bytes lie in the area; the PCDs are
-- 32 bits wide.
pub record Inside (b : Board) (address n : ℕ) : Type 0 where
  pub above : b.base ≤ address
  pub below : address - b.base + n ≤ b.size
  pub aligned : (address - b.base) % block_size ≡ 0
  pub narrow : b.base + b.size ≤ 2 ^ 32

module _ (b : Board) where
  get_or-read :
      (d : b.Device) (n address i : ℕ)
      → b.base ≤ address
      → i < n
      → get_or (spi_flash_read b d address n) i 0 ≡ b.flash d (address - b.base + i)
  unfolding spi_flash_read
  get_or-read d zero address i h lt = absurd (omega arith)
  get_or-read d (suc n) address zero h lt = ap (b.flash d) (omega arith)
  get_or-read d (suc n) address (suc i) h lt =
      get_or-read d n (address + 1) i (omega arith) (omega arith) ∙ ap (b.flash d) (omega arith)

  -- The flash from `offset` on holds `n` bytes of a buffer.
  abbrev pub Programmed : ℕ → ℕ → Bytes → b.Device → Type 0
  Programmed offset n buf d = (i : ℕ) → i < n → b.flash d (offset + i) ≡ get_or buf i 0

  -- Outside `n` bytes from `offset` on the flash is the same.
  abbrev pub SameOutside : ℕ → ℕ → b.Device → b.Device → Type 0
  SameOutside offset n d d' = (i : ℕ) → (i < offset) ⊎ (offset + n ≤ i) → b.flash d' i ≡ b.flash d i

  pub compare-Programmed :
      (address : ℕ) (buf : Bytes) (d : b.Device)
      → b.base ≤ address
      → efi_error (internal_compare_block b address buf d) ≡ false
      → Programmed (address - b.base) block_size buf d
  unfolding internal_compare_block
  compare-Programmed address buf d above h i lt =
      let equal : spi_flash_read b d address block_size ≡ take block_size buf =
        same_text-eq _ _ (ground arith) in
      sym (get_or-read d block_size address i above lt)
      ∙ ap (λ t. get_or t i 0) equal
      ∙ get_or-take block_size buf i lt

  -- A loop that would end after one command is that command.
  on_command_once :
      (r : Status × b.Device) (n : ℕ) (next : Status → b.Device → Flow (Status × ℕ × b.Device))
      → ((s : Status) (d : b.Device) → next s d ≡ returns (s, 0, d))
      → on_command b r n next ≡ returns (r.0, (if efi_error r.0 then n else 0), r.1)
  unfolding on_command
  on_command_once (success, d) n next h = h success d
  on_command_once (warning w, d) n next h = h (warning w) d
  on_command_once (error e, d) n next h = refl

  -- A block is erased by one command.
  pub erase-eq :
      (address : ℕ) (d : b.Device)
      → Inside b address block_size
      → internal_erase_block b address d ≡ returns (b.execute (erase (address - b.base)) d)
  unfolding internal_erase_block spi_flash_block_erase erase_loop
  erase-eq address d h =
      let low : leb b.base address ≡ true = ground (arith, h.above) in
      let high : leb (block_size + (address - b.base)) b.size ≡ true = ground (arith, h.below) in
      let narrow : (address - b.base) % 2 ^ 32 ≡ address - b.base =
        omega (arith, h.below, h.narrow) in
      rw
        (
          low,
          high,
          erase_loop,
          narrow,
          on_command_once (b.execute (erase (address - b.base)) d) block_size
              (erase_loop b block_size (address - b.base + block_size) 0) (λ s e. refl),
        )
        refl

  -- The status after a block was written: the device's error, or the comparison's result.
  abbrev pub checked : ℕ → Bytes → Status × b.Device → Status × b.Device
  checked address buf (status, d) =
      if efi_error status then (status, d) else (internal_compare_block b address buf d, d)

  chunk_small : (n : ℕ) → n ≤ block_size → chunk n ≡ n
  unfolding chunk
  chunk_small n h = ground arith

  ended : (k : ℕ) → suc k - suc k ≡ 0
  ended k = omega arith

  write_loop_once :
      (fuel offset k : ℕ) (buf : Bytes) (d : b.Device)
      → suc k ≤ block_size
      → let r = b.execute (program (offset % 2 ^ 32) (take (suc k) buf)) d in
        write_loop b (suc (suc fuel)) offset (suc k) buf success d
        ≡ returns (r.0, (if efi_error r.0 then suc k else 0), r.1)
  unfolding write_loop
  write_loop_once fuel offset k buf d small = rw (chunk_small (suc k) small) (
      on_command_once (b.execute (program (offset % 2 ^ 32) (take (suc k) buf)) d) (suc k) _
        (λ s e. rw (ended k) refl))

  -- A write of at most one block is one command, and the comparison when that succeeds.
  pub write-eq :
      (address k : ℕ) (buf : Bytes) (d : b.Device)
      → suc k ≤ block_size
      → Inside b address (suc k)
      → internal_write_block b address buf (suc k) d
        ≡ returns
            (checked address buf (b.execute (program (address - b.base) (take (suc k) buf)) d))
  unfolding internal_write_block spi_flash_write
  write-eq address k buf d small h =
      let low : leb b.base address ≡ true = ground (arith, h.above) in
      let high : leb (suc k + (address - b.base)) b.size ≡ true = ground (arith, h.below) in
      let narrow : (address - b.base) % 2 ^ 32 ≡ address - b.base =
        omega (arith, h.below, h.narrow) in
      rw (low, high, write_loop_once k (address - b.base) k buf d small, narrow) refl
