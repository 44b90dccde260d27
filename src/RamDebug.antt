-- ===== src/RamDebug.antt =====
-- Library/RamDebugLib/RamDebugLib.c and Include/Library/RamDebugLib.h: a log in memory. The region
-- is its header fields and its print buffer; a run ends at an access outside the buffer. MMIO and the
-- port I/O are parameters.
pub mod Index
pub mod Loops
pub mod Log
pub mod Print
pub mod Refine
pub mod Newest
pub mod Overrun
use uefi_toolkit_pkg.Base.{
  ℕ, zero, suc, ◌+◌, ◌-◌, ◌%◌, ◌^◌, Bool, true, false, List, [], ◌∷◌, Bytes, length, drop, get_or,
  set, ltb, leb, ◌==◌, if◌then◌else◌, Status, success, error, efi_error, invalid_parameter,
  write_protected,
}

-- RAM_DEBUG_PRINT_HEADER, but for the reserved bytes, and the print buffer.
pub record Ram : Type 0 where
  pub sig : ℕ
  pub latest_idx : ℕ
  pub buffer : Bytes

-- What a run comes to: its result, an access outside the print buffer, or that the fuel of the model
-- is out.
pub data Access {ℓ} (A : Type ℓ) : Type ℓ where
  ran : A → Access A
  outside : Access A
  no_fuel : Access A

abbrev pub then_run {ℓ κ} : {A : Type ℓ} {B : Type κ} → Access A → (A → Access B) → Access B
then_run (ran a) f = f a
then_run outside f = outside
then_run no_fuel f = no_fuel

-- The PCDs RAM_DEBUG_BASE and RAM_DEBUG_SIZE, whether the region can be written, and the byte
-- that the CMOS port reads.
pub record Setup : Type 0 where
  pub base : ℕ
  pub size : ℕ
  pub writable : Bool
  pub cmos : ℕ

-- SIGNATURE_32 ('R','M','D','P')
abbrev pub header_id : ℕ
header_id = 0x50444d52

abbrev pub ram_debug_disable : ℕ
ram_debug_disable = 0x5a

abbrev pub default_value : ℕ
default_value = 0xcc

-- DEBUG_PRINT_BUFFER_SIZE, a UINTN because of sizeof: the header has 16 bytes.
unfoldable pub buffer_size : Setup → ℕ
buffer_size s = (s.size + 2 ^ 64 - 16) % 2 ^ 64

-- MmioRead8 and MmioWrite8 in the buffer.
unfoldable pub read8 : Ram → ℕ → Access ℕ
read8 ram index = if ltb index (length ram.buffer) then ran (get_or ram.buffer index 0) else outside

unfoldable pub write8 : Setup → ℕ → ℕ → Ram → Access Ram
write8 s index v ram =
    if ltb index (length ram.buffer)
    then ran (if s.writable then record ram { buffer = set ram.buffer index v } else ram)
    else outside

unfoldable pub write_sig : Setup → Ram → Ram
write_sig s ram = if s.writable then record ram { sig = header_id } else ram

unfoldable pub write_latest : Setup → ℕ → Ram → Ram
write_latest s n ram = if s.writable then record ram { latest_idx = n } else ram

-- `count` default values from `index` on.
unfoldable pub fill : Setup → ℕ → ℕ → Ram → Access Ram
fill s zero index ram = ran ram
fill s (suc count) index ram =
    then_run (write8 s index default_value ram) (fill s count (index + 1))

-- What was filled, with the success and the index that the header has then.
unfoldable pub on_filled : Access Ram → Access (Status × ℕ × Ram)
on_filled outside = outside
on_filled no_fuel = no_fuel
on_filled (ran ram) = ran (success, ram.latest_idx, ram)

-- RamDebugGetLatestIndex: the status, *LatestIndex (0 stands for not set), the region.
unfoldable pub ram_debug_get_latest_index : Setup → Ram → Access (Status × ℕ × Ram)
ram_debug_get_latest_index s ram =
    let marked = write_sig s ram in
    if s.base == 0
    then ran (error invalid_parameter, 0, ram)
    else if s.size == 0
    then ran (error invalid_parameter, 0, ram)
    else if ram.sig == header_id
    then ran (success, ram.latest_idx, ram)
    else if marked.sig == header_id
    then on_filled (fill s (buffer_size s) 0 (write_latest s 0 marked))
    else ran (error write_protected, 0, marked)

-- RamDebugGetRecordSize, on the buffer from the record's address on.
unfoldable pub ram_debug_get_record_size : Bytes → Access ℕ
ram_debug_get_record_size [] = outside
ram_debug_get_record_size (b ∷ bytes) =
    if b == 0
    then ran 1
    else then_run (ram_debug_get_record_size bytes) (λ n. ran ((n + 1) % 2 ^ 32))

-- The while loop of RamDebugCleanUp on fuel: RecordOffset at its end.
unfoldable pub remove_records : ℕ → Ram → ℕ → ℕ → ℕ → Access ℕ
remove_records zero ram new_length offset remained = no_fuel
remove_records (suc fuel) ram new_length offset remained =
    let removed =
      then_run (ram_debug_get_record_size (drop offset ram.buffer)) (λ n.
        remove_records fuel ram new_length ((offset + n) % 2 ^ 32) ((remained + n) % 2 ^ 32)) in
    if ltb remained new_length then removed else ran offset

-- The loop that moves the data forward, with the rounds left.
unfoldable pub move : Setup → ℕ → ℕ → ℕ → Ram → Access Ram
move s zero offset index ram = ran ram
move s (suc count) offset index ram =
    then_run (read8 ram (offset + index))
      (λ v. then_run (write8 s index v ram) (move s count offset (index + 1)))

-- RamDebugCleanUp: *LatestIndex and the region. Every record has a byte, so the fuel is enough.
unfoldable pub ram_debug_clean_up : Setup → ℕ → ℕ → Ram → Access (ℕ × Ram)
ram_debug_clean_up s new_length latest ram =
    let size = buffer_size s in
    then_run (remove_records (suc new_length) ram new_length 0 ((size + 2 ^ 64 - latest) % 2 ^ 32))
      (λ offset.
        let left = (latest + 2 ^ 32 - offset) % 2 ^ 32 in
        then_run (move s left offset 0 ram) (λ moved.
          then_run (fill s ((size + 2 ^ 64 - left) % 2 ^ 64) left moved)
            (λ filled. ran (left, filled))))

-- The loop that saves the bytes of Buffer.
unfoldable pub save : Setup → Bytes → ℕ → Ram → Access Ram
save s [] index ram = ran ram
save s (b ∷ bytes) index ram = then_run (write8 s index b ram) (save s bytes (index + 1))

-- The end of RamDebugPrint: save the data if it fits now.
unfoldable pub save_record : Setup → Bytes → ℕ → ℕ → Ram → Access Ram
save_record s bytes temp_size latest ram =
    let saved =
      then_run (save s bytes latest ram)
        (λ ram'. ran (write_latest s ((latest + temp_size) % 2 ^ 32) ram')) in
    if leb ((latest + temp_size) % 2 ^ 32) (buffer_size s) then saved else ran ram

-- RamDebugPrint with its index; `bytes` is the data and the byte behind it.
unfoldable pub on_index : Setup → Bytes → ℕ → Access (Status × ℕ × Ram) → Access Ram
on_index s bytes temp_size outside = outside
on_index s bytes temp_size no_fuel = no_fuel
on_index s bytes temp_size (ran (status, latest, ram)) =
    let cleaned =
      then_run (ram_debug_clean_up s temp_size latest ram)
        (λ r. save_record s bytes temp_size r.0 r.1) in
    if efi_error status
    then ran ram
    else if ltb (buffer_size s) ((latest + temp_size) % 2 ^ 32)
    then cleaned
    else save_record s bytes temp_size latest ram

unfoldable pub ram_debug_print : Setup → Bytes → ℕ → Ram → Access Ram
ram_debug_print s bytes size ram =
    if s.cmos == ram_debug_disable
    then ran ram
    else if ltb (buffer_size s) size
    then ran ram
    else on_index s bytes ((size + 1) % 2 ^ 32) (ram_debug_get_latest_index s ram)
