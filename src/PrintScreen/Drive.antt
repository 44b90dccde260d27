-- ===== src/PrintScreen/Drive.antt =====
-- FindUsbDriveForPrintScreen of Drivers/Dxe/PrintScreenLogger/PrintScreenLogger.c. The answers of
-- the boot services are parameters; a volume is the index of its handle.
pub mod First
use uefi_toolkit_pkg.Base.{
  ℕ, ◌+◌, Bool, true, false, not, List, [], ◌∷◌, ◌++◌, Option, none, some, if◌then◌else◌, Status,
  success, efi_error,
}

-- What the calls answer about one handle of HandleBuffer: whether DevicePathFromHandle finds a
-- path, LocateDevicePath for UsbIo and BlockIo, HandleProtocol, OpenVolume, and Open of
-- PrintScreenEnable.txt.
pub record Handle : Type 0 where
  pub usb_path : Bool
  pub usb : Status
  pub block_path : Bool
  pub block_io : Status
  pub file_system : Status
  pub volume : Status
  pub enable_file : Status

pub data Event : Type 0 where
  volume_opened volume_closed : ℕ → Event
  file_opened file_closed : Event
  buffer_freed : Event

-- One round of the loop: the status it leaves, whether it ends the loop, and its calls.
unfoldable pub visit : ℕ → Handle → Status → Status × Bool × List Event
visit index h status =
    if not h.usb_path
    then (status, false, [])
    else if efi_error h.usb
    then (h.usb, false, [])
    else if not h.block_path
    then (h.usb, false, [])
    else if efi_error h.block_io
    then (h.block_io, false, [])
    else if efi_error h.file_system
    then (h.file_system, false, [])
    else if efi_error h.volume
    then (h.volume, false, [])
    else if efi_error h.enable_file
    then (h.enable_file, false, volume_opened index ∷ volume_closed index ∷ [])
    else (success, true, volume_opened index ∷ file_opened ∷ file_closed ∷ [])

unfoldable pub on_visit :
    ℕ
    → Status × Bool × List Event
    → (Status → Status × Option ℕ × List Event)
    → Status × Option ℕ × List Event
on_visit index (status, true, events) next = (status, some index, events)
on_visit index (status, false, events) next =
    let (status', found, more) = next status in (status', found, events ++ more)

-- The loop over the handles, from `index` on: Status, the volume stored in *VolumeHandle, the calls.
unfoldable pub find_loop : List Handle → ℕ → Status → Status × Option ℕ × List Event
find_loop [] index status = (status, none, [])
find_loop (h ∷ handles) index status =
    on_visit index (visit index h status) (find_loop handles (index + 1))

-- LocateHandleBuffer answers `located` and the handles; it allocates HandleBuffer on success.
unfoldable pub find_usb_drive_for_print_screen :
    Status → List Handle → Status × Option ℕ × List Event
find_usb_drive_for_print_screen located handles =
    let (status, found, events) = find_loop handles 0 located in
    if efi_error located then (located, none, []) else (status, found, events ++ buffer_freed ∷ [])
