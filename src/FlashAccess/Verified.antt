-- ===== src/FlashAccess/Verified.antt =====
-- PerformFlashWriteWithProgress as a whole: it ends, reports its status truthfully and keeps to
-- its range.
use uefi_toolkit_pkg.Base.{
  ℕ, ◌-◌, ◌*◌, ◌/◌, ◌<◌, ◌≡◌, refl, ap, Bool, false, List, [], ◌∷◌, ◌++◌, map, append_assoc, arith,
  Bytes, Status, success, efi_error,
}
use uefi_toolkit_pkg.FlashAccess.Device.{Board, block_size, Confined}
use uefi_toolkit_pkg.FlashAccess.Spi.{Flow, returns}
use uefi_toolkit_pkg.FlashAccess.Update.{
  FlashAddressType, raise_tpl, restore_tpl, progress, report, After, update_loop,
  perform_flash_write_with_progress, perform_flash_write, target_address,
}
use uefi_toolkit_pkg.FlashAccess.Frame.{Inside, Programmed, SameOutside}
use uefi_toolkit_pkg.FlashAccess.Rounds.{update_loop-Looped}

-- What an update of `n` bytes comes to: it returns; its calls are one RaiseTPL, progress reports,
-- one RestoreTPL and at the end, with `reported`, a report of `end`; it changes no byte elsewhere;
-- without an error in the status the flash holds the buffer's first `n` bytes.
pub record Updated (b : Board) (reported : Bool) (end offset n : ℕ) (buf : Bytes) (d : b.Device)
    (r : Flow (After b)) : Type 0 where
  pub status : Status
  pub told : List ℕ
  pub device : b.Device
  pub ends :
      r
      ≡ returns (status, raise_tpl ∷ map progress told ++ restore_tpl ∷ report reported end, device)
  pub same : SameOutside b offset n d device
  pub holds : efi_error status ≡ false → Programmed b offset n buf device

-- An update that starts at a block boundary of the flash area (as the comment of SpiFlashBlockErase
-- wants), and whose whole blocks lie in the area, of which the base and the end have 32 bits: it always
-- returns, without a failed ASSERT, raises and restores the TPL once each, and changes no byte outside
-- these blocks. When it reports no error, each whole block holds the caller's data. That Execute of the
-- SPI protocol, whatever it returns, changes no byte but those a write command names and those of the
-- 4 KB block that the offset of an erase command lies in is a hypothesis.
pub perform_flash_write_with_progress-Updated :
    (b : Board) (fd_address flash_address : ℕ) (type : FlashAddressType) (buf : Bytes) (len : ℕ)
    (reported : Bool) (start end : ℕ) (d : b.Device)
    → Inside b (target_address fd_address flash_address type) (len / block_size * block_size)
    → Confined b
    → Updated b reported end
        (target_address fd_address flash_address type - b.base)
        (len / block_size * block_size)
        buf
        d
        (perform_flash_write_with_progress b fd_address flash_address type buf len reported start
          end d)
unfolding perform_flash_write_with_progress
perform_flash_write_with_progress-Updated b fd_address flash_address type buf len reported start end
      d h confined =
    let l =
      update_loop-Looped b reported start end (len / block_size) (len / block_size) 0
        (target_address fd_address flash_address type) len buf success (raise_tpl ∷ []) d
        (omega arith) h confined refl in
    record {
      status = l.status;
      told = l.told;
      device = l.device;
      ends = rw l.ends (
          ap (λ cs. returns (l.status, cs, l.device))
            (append_assoc ((raise_tpl ∷ []) ++ map progress l.told) (restore_tpl ∷ [])
              (report reported end)));
      same = l.same;
      holds = l.holds;
    }

-- An update of less than one block reports success and writes nothing.
pub perform_flash_write_short :
    (b : Board) (fd_address flash_address : ℕ) (type : FlashAddressType) (buf : Bytes) (len : ℕ)
    (d : b.Device)
    → len < block_size
    → perform_flash_write b fd_address flash_address type buf len d
      ≡ returns (success, raise_tpl ∷ restore_tpl ∷ [], d)
unfolding perform_flash_write perform_flash_write_with_progress update_loop
perform_flash_write_short b fd_address flash_address type buf len d short =
    let none_left : len / block_size ≡ 0 = omega arith in rw none_left refl
