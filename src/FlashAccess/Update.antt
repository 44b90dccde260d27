-- ===== src/FlashAccess/Update.antt =====
-- PerformFlashWriteWithProgress, PerformFlashWrite and the constructor of
-- Library/PlatformFlashAccessLib/PlatformFlashAccessLib.c.
use uefi_toolkit_pkg.Base.{
  ℕ, zero, suc, ◌+◌, ◌-◌, ◌*◌, ◌/◌, ◌%◌, ◌^◌, Bool, true, false, List, [], ◌∷◌, ◌++◌, Bytes, drop,
  ltb, if◌then◌else◌, Status, success, efi_error,
}
use uefi_toolkit_pkg.FlashAccess.Device.{Board, block_size}
use uefi_toolkit_pkg.FlashAccess.Spi.{
  Flow, returns, asserts, ◌>>=◌, internal_compare_block, internal_erase_block, internal_write_block,
}

pub data FlashAddressType : Type 0 where
  relative_address absolute_address : FlashAddressType

-- Calls with an effect on the rest of the system, oldest first.
pub data Call : Type 0 where
  raise_tpl restore_tpl : Call
  progress : ℕ → Call

-- `StartPercentage + ((Index * (EndPercentage - StartPercentage)) / CountOfBlocks)` in UINTN.
unfoldable pub percentage : ℕ → ℕ → ℕ → ℕ → ℕ
percentage start end index count =
    (start + index * ((end + 2 ^ 64 - start) % 2 ^ 64) % 2 ^ 64 / count) % 2 ^ 64

abbrev pub report : Bool → ℕ → List Call
report true n = progress n ∷ []
report false n = []

-- Address after the adjustment for the address type; `fd_address` is mInternalFdAddress.
unfoldable pub target_address : ℕ → ℕ → FlashAddressType → ℕ
target_address fd_address flash_address relative_address = (flash_address + fd_address) % 2 ^ 64
target_address fd_address flash_address absolute_address = flash_address

module _ (b : Board) where
  -- The body for one block: skip it if it is programmed, else erase it and write it.
  unfoldable pub update_block : ℕ → Bytes → ℕ → Status → b.Device → Flow (Status × b.Device)
  update_block address buf length status d =
      if efi_error (internal_compare_block b address buf d)
      then (internal_erase_block b address d >>= λ (erase_status, erased).
          elim (efi_error erase_status) [
            | true ↦ returns (erase_status, erased)
            | false ↦
                internal_write_block b address buf
                  (if ltb block_size length then block_size else length) erased
          ])
      else returns (status, d)

  -- The status, the calls made and the device.
  abbrev pub After : Type 0
  After = Status × List Call × b.Device

  -- The status that the loop goes on with is no error.
  abbrev pub next_block :
      List Call → Status × b.Device → (Status → List Call → b.Device → Flow After) → Flow After
  next_block calls (status, d) more = elim (efi_error status) [
    | true ↦ returns (status, calls ++ restore_tpl ∷ [], d)
    | false ↦ more status calls d
  ]

  -- The loop over the blocks, with the rounds left; `reported` says that Progress is not NULL.
  unfoldable pub update_loop :
      (reported : Bool) (start end count rounds index address length : ℕ) (buf : Bytes)
      → Status
      → List Call
      → b.Device
      → Flow After
  update_loop reported start end count zero index address length buf status calls d =
      returns (status, calls ++ restore_tpl ∷ [], d)
  update_loop reported start end count (suc rounds) index address length buf status calls d =
      let calls' = calls ++ report reported (percentage start end index count) in
      update_block address buf length status d >>= λ done. next_block calls' done (
        update_loop reported start end count rounds (index + 1) ((address + block_size) % 2 ^ 64)
          (if ltb block_size length then length - block_size else 0) (drop block_size buf))

  unfoldable pub perform_flash_write_with_progress :
      (fd_address flash_address : ℕ)
      → FlashAddressType
      → Bytes
      → (length : ℕ) (reported : Bool) (start end : ℕ) → b.Device
      → Flow After
  perform_flash_write_with_progress fd_address flash_address type buffer length reported start end
        d =
      let address = target_address fd_address flash_address type in
      let count = length / block_size in
      update_loop reported start end count count 0 address length buffer success (raise_tpl ∷ []) d
      >>= λ (status, calls, d'). returns (status, calls ++ report reported end, d')

  unfoldable pub perform_flash_write : ℕ → ℕ → FlashAddressType → Bytes → ℕ → b.Device → Flow After
  perform_flash_write fd_address flash_address type buffer length d =
      perform_flash_write_with_progress fd_address flash_address type buffer length false 0 0 d

  -- The constructor, by what LocateProtocol answers: its status and mInternalFdAddress.
  unfoldable pub constructor : Status → Flow (Status × ℕ)
  constructor located = if efi_error located then asserts else returns (success, b.base)
