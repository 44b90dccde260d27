-- ===== src/PrintScreen/Capture.antt =====
-- PrintScreenCallback of Drivers/Dxe/PrintScreenLogger/PrintScreenLogger.c.
pub mod NewFile
use uefi_toolkit_pkg.Base.{
  ℕ, zero, suc, ◌+◌, Bool, true, false, List, [], ◌∷◌, ◌++◌, Option, none, some, ltb, if◌then◌else◌,
  Status, success, error, efi_error, EfiError, not_ready, not_found,
}
use uefi_toolkit_pkg.PrintScreen.Drive as Drive
use uefi_toolkit_pkg.PrintScreen.Drive.{Handle, find_usb_drive_for_print_screen}

-- Open of PrtScreen####.bmp on the volume, by its number: for reading, and to create it.
pub record Volume : Type 0 where
  pub open_read : ℕ → Status
  pub create : ℕ → Status

pub data Event : Type 0 where
  found_drive : ℕ → Event
  read_tried read_closed created bitmap_written created_closed : ℕ → Event
  volume_closed : Event
  timer_set : Event

abbrev pub max_print_screen_files : ℕ
max_print_screen_files = 512

-- How the search for a file name ends: a number that is not in use, or none up to the maximum.
pub data Search : Type 0 where
  free : ℕ → Search
  full : Search
  no_fuel : Search

abbrev pub is_not_found : Status → Bool
is_not_found (error not_found) = true
is_not_found _ = false

abbrev pub is_not_ready : Status → Bool
is_not_ready (error not_ready) = true
is_not_ready _ = false

-- The end of a round, on what Open returned for number `index`; `next` are the rounds after it.
unfoldable pub on_open : ℕ → Status → Search × List Event → Search × List Event
on_open index status (found, events) =
    if efi_error status
    then if is_not_found status
      then (free index, read_tried index ∷ [])
      else (found, read_tried index ∷ events)
    else (found, read_tried index ∷ read_closed index ∷ events)

-- The do-while loop on fuel; `index` is Index before it is incremented.
unfoldable pub search_loop : Volume → ℕ → ℕ → Search × List Event
search_loop v zero index = (no_fuel, [])
search_loop v (suc fuel) index =
    let rest = search_loop v fuel (index + 1) in
    if ltb max_print_screen_files (index + 1)
    then (full, [])
    else on_open (index + 1) (v.open_read (index + 1)) rest

-- Steps 3 to 5: create the file, write the bitmap, close the file, and close the volume.
unfoldable pub on_search : Volume → Search × List Event → Option (List Event)
on_search v (no_fuel, events) = none
on_search v (full, events) = some (events ++ volume_closed ∷ [])
on_search v (free index, events) =
    if efi_error (v.create index)
    then some (events ++ volume_closed ∷ [])
    else some
        (events ++ created index ∷ bitmap_written index ∷ created_closed index ∷ volume_closed ∷ [])

-- Steps 1 to 5 and the timer, on what FindUsbDriveForPrintScreen returns: its status and the
-- volume that it has stored. `none` stands for a use of VolumeHandle that was never set, and for
-- fuel that runs out.
unfoldable pub on_drive : (ℕ → Volume) → Status × Option ℕ × List Drive.Event → Option (List Event)
on_drive volumes (status, stored, calls) =
    if efi_error status then some (timer_set ∷ []) else elim stored [
      | none ↦ none
      | some n ↦
          elim (on_search (volumes n) (search_loop (volumes n) (suc max_print_screen_files) 0)) [
            | none ↦ none
            | some events ↦ some (found_drive n ∷ events ++ timer_set ∷ [])
          ]
    ]

-- PrintScreenCallback: `ready` is what CheckEvent answers, `located` and `handles` what
-- LocateHandleBuffer does. It always returns EFI_SUCCESS.
unfoldable pub print_screen_callback :
    Status → Status → List Handle → (ℕ → Volume) → Option (List Event)
print_screen_callback ready located handles volumes =
    if is_not_ready ready
    then some []
    else on_drive volumes (find_usb_drive_for_print_screen located handles)
