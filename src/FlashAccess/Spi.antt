-- ===== src/FlashAccess/Spi.antt =====
-- SpiFlashRead, SpiFlashWrite, SpiFlashBlockErase and the Internal*Block functions of
-- Library/PlatformFlashAccessLib/PlatformFlashAccessLib.c. Addresses in the flash area only are
-- read; the cache is flushed before each comparison, so a read sees the device.
use uefi_toolkit_pkg.Base.{
  ℕ, zero, suc, ◌+◌, ◌-◌, ◌%◌, ◌^◌, true, false, ◌&&◌, [], ◌∷◌, Bytes, take, drop, ltb, leb, ◌==◌,
  same_text, if◌then◌else◌, Status, success, error, efi_error, out_of_resources, volume_corrupted,
}
use uefi_toolkit_pkg.FlashAccess.Device.{program, erase, Board, block_size}

-- A call returns, or stops at a failed ASSERT; `no_fuel` when a loop's fuel runs out.
pub data Flow {ℓ} (A : Type ℓ) : Type ℓ where
  returns : A → Flow A
  asserts : Flow A
  no_fuel : Flow A

infixl 5 ◌>>=◌
abbrev pub ◌>>=◌ {ℓ κ} : {A : Type ℓ} {B : Type κ} → Flow A → (A → Flow B) → Flow B
returns a >>= f = f a
asserts >>= f = asserts
no_fuel >>= f = no_fuel

-- `if (RemainingBytes > SIZE_4KB) Length = SIZE_4KB; else Length = RemainingBytes;`
unfoldable pub chunk : ℕ → ℕ
chunk remaining = if ltb block_size remaining then block_size else remaining

module _ (b : Board) where
  -- CopyMem from the mapped flash: `n` bytes from an address.
  unfoldable pub spi_flash_read : b.Device → ℕ → ℕ → Bytes
  spi_flash_read d address zero = []
  spi_flash_read d address (suc n) = b.flash d (address - b.base) ∷ spi_flash_read d (address + 1) n

  -- A round of either loop: leave it on an error, with the bytes that remain, or go on.
  unfoldable pub on_command :
      Status × b.Device
      → ℕ
      → (Status → b.Device → Flow (Status × ℕ × b.Device))
      → Flow (Status × ℕ × b.Device)
  on_command (status, d) remaining next = elim (efi_error status) [
    | true ↦ returns (status, remaining, d)
    | false ↦ next status d
  ]

  -- The write loop: the status, RemainingBytes and the device.
  unfoldable pub write_loop : ℕ → ℕ → ℕ → Bytes → Status → b.Device → Flow (Status × ℕ × b.Device)
  write_loop zero offset remaining buffer status d = no_fuel
  write_loop (suc fuel) offset zero buffer status d = returns (status, 0, d)
  write_loop (suc fuel) offset (suc k) buffer status d =
      let len = chunk (suc k) in
      on_command (b.execute (program (offset % 2 ^ 32) (take len buffer)) d) (suc k)
        (write_loop fuel (offset + len) (suc k - len) (drop len buffer))

  -- The status, the number of bytes written and the device.
  unfoldable pub spi_flash_write : ℕ → ℕ → Bytes → b.Device → Flow (Status × ℕ × b.Device)
  spi_flash_write address num_bytes buffer d =
      let offset = address - b.base in
      if leb b.base address && leb (num_bytes + offset) b.size
      then (write_loop (suc num_bytes) offset num_bytes buffer success d
          >>= λ (status, remaining, d'). returns (status, num_bytes - remaining, d'))
      else asserts

  -- The erase loop: the status, RemainingBytes and the device.
  unfoldable pub erase_loop : ℕ → ℕ → ℕ → Status → b.Device → Flow (Status × ℕ × b.Device)
  erase_loop zero offset remaining status d = no_fuel
  erase_loop (suc fuel) offset zero status d = returns (status, 0, d)
  erase_loop (suc fuel) offset (suc k) status d =
      on_command (b.execute (erase (offset % 2 ^ 32)) d) (suc k)
        (erase_loop fuel (offset + block_size) (suc k - block_size))

  unfoldable pub spi_flash_block_erase : ℕ → ℕ → b.Device → Flow (Status × ℕ × b.Device)
  spi_flash_block_erase address num_bytes d =
      let offset = address - b.base in
      if leb b.base address && (num_bytes % block_size == 0 && leb (num_bytes + offset) b.size)
      then (erase_loop (suc num_bytes) offset num_bytes success d >>= λ (status, remaining, d').
          returns (status, num_bytes - remaining, d'))
      else asserts

  unfoldable pub internal_read_block : ℕ → b.Device → Status × Bytes
  internal_read_block address d = (success, spi_flash_read d address block_size)

  unfoldable pub internal_erase_block : ℕ → b.Device → Flow (Status × b.Device)
  internal_erase_block address d =
      spi_flash_block_erase address block_size d >>= λ (status, erased, d'). returns (status, d')

  -- CompareMem over a block of `buffer`, which the caller has of that size at least.
  unfoldable pub internal_compare_block : ℕ → Bytes → b.Device → Status
  internal_compare_block address buffer d =
      if b.pool block_size
      then if same_text (spi_flash_read d address block_size) (take block_size buffer)
        then success
        else error volume_corrupted
      else error out_of_resources

  unfoldable pub internal_write_block : ℕ → Bytes → ℕ → b.Device → Flow (Status × b.Device)
  internal_write_block address buffer buffer_size d =
      spi_flash_write address buffer_size buffer d >>= λ (status, written, d').
      returns
        (if efi_error status then (status, d') else (internal_compare_block address buffer d', d'))
