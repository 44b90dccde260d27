-- ===== src/FlashAccess/Device.antt =====
-- What PlatformFlashAccessLib takes from outside: the SPI protocol's Execute, the flash as it is
-- mapped into memory, AllocatePool, and the two PCDs.
use uefi_toolkit_pkg.Base.{ℕ, ◌+◌, ◌/◌, ◌≤◌, ◌<◌, ◌≡◌, Bool, Bytes, length, Status}

-- mSpiProtocol->Execute with SPI_OPCODE_WRITE_INDEX (offset and data) or SPI_OPCODE_ERASE_INDEX.
pub data Command : Type 0 where
  program : ℕ → Bytes → Command
  erase : ℕ → Command

abbrev pub block_size : ℕ
block_size = 0x1000

-- `flash` is the flash area, a function of the device and the offset; it is mapped at `base`.
pub record Board : Type 1 where
  pub Device : Type 0
  pub execute : Command → Device → Status × Device
  pub flash : Device → ℕ → ℕ
  pub pool : ℕ → Bool
  pub base : ℕ
  pub size : ℕ

-- A byte offset that a command may change: for an erase those of the 4 KB block of the flash area
-- that its offset lies in.
abbrev pub Touches : Command → ℕ → Type 0
Touches (program offset bytes) i = (offset ≤ i) × (i < offset + length bytes)
Touches (erase offset) i = i / block_size ≡ offset / block_size

-- The behaviour of the device that the update relies on: a program command changes nothing outside
-- the bytes it names, an erase nothing outside its 4 KB block, whether it succeeds or fails.
abbrev pub Confined : Board → Type 0
Confined b =
    (c : Command) (d : b.Device) (i : ℕ)
    → (Touches c i → ⊥)
    → b.flash (b.execute c d).1 i ≡ b.flash d i
