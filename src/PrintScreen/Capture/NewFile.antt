-- ===== src/PrintScreen/Capture/NewFile.antt =====
-- The file that PrintScreenCallback writes is new, and everything it opens is closed.
use uefi_toolkit_pkg.Base.{
  ℕ, zero, suc, ◌+◌, ◌-◌, ◌≤◌, ◌≡◌, ◌≢◌, refl, sym, true, false, List, [], ◌∷◌, ◌++◌, some, arith,
  ltb, if◌then◌else◌, Status, success, error, warning, efi_error, Bool-cases, inl, inr, not, length,
  All, Option, none, ◌<◌,
}
use uefi_toolkit_pkg.PrintScreen.Capture.{
  Volume, Event, found_drive, read_tried, read_closed, created, bitmap_written, created_closed,
  volume_closed, timer_set, max_print_screen_files, Search, free, full, no_fuel, is_not_found,
  is_not_ready, on_open, search_loop, on_search, on_drive, print_screen_callback,
}
use uefi_toolkit_pkg.PrintScreen.Drive as Drive
use uefi_toolkit_pkg.PrintScreen.Drive.{Handle, find_usb_drive_for_print_screen}
use uefi_toolkit_pkg.PrintScreen.Drive.First.{
  first_offer, is_found, HasPaths, find_usb_drive_for_print_screen-first_offer,
}

-- The first number above `index`, of `count` numbers, whose file is not found.
abbrev pub first_free : Volume → ℕ → ℕ → Search
first_free v zero index = full
first_free v (suc count) index =
    let rest = first_free v count (index + 1) in
    if is_not_found (v.open_read (index + 1)) then free (index + 1) else rest

-- The last number that is tried.
abbrev pub last_tried : Search → ℕ
last_tried (free n) = n
last_tried full = max_print_screen_files
last_tried no_fuel = 0

-- The calls for `count` numbers above `index`, in order: each name is tried, and its file closed if it
-- could be opened.
abbrev pub tries : Volume → ℕ → ℕ → List Event
tries v zero index = []
tries v (suc count) index =
    read_tried (index + 1)
    ∷ ((if efi_error (v.open_read (index + 1)) then [] else read_closed (index + 1) ∷ [])
        ++ tries v count (index + 1))

-- The numbers tried are above `index`, as far as the first that is not found.
last_tried-ge :
    (v : Volume) (count index : ℕ)
    → count + index ≡ max_print_screen_files
    → index ≤ last_tried (first_free v count index)
last_tried-ge v zero index h = omega (arith, h)
last_tried-ge v (suc count) index h =
    let rest = last_tried-ge v count (index + 1) (omega arith) in
    elim (Bool-cases (is_not_found (v.open_read (index + 1)))) [
      | inl missing ↦ rw missing (omega arith)
      | inr other ↦ rw other (omega (arith, rest))
    ]

no_more : (n : ℕ) → n - n ≡ 0
no_more n = omega arith

-- One round more.
tries-step :
    (v : Volume) (last index : ℕ)
    → index + 1 ≤ last
    → tries v (last - index) index
      ≡ read_tried (index + 1)
        ∷ ((if efi_error (v.open_read (index + 1)) then [] else read_closed (index + 1) ∷ [])
            ++ tries v (last - (index + 1)) (index + 1))
tries-step v last index h =
    let more : last - index ≡ suc (last - (index + 1)) = omega arith in rw more refl

on_open_lem :
    (v : Volume) (index : ℕ) (status : Status) (r : Search × List Event) (rest : Search)
    → v.open_read (index + 1) ≡ status
    → r.0 ≡ rest
    → index + 1 ≤ last_tried rest
    → r.1 ≡ tries v (last_tried rest - (index + 1)) (index + 1)
    → let found : Search = if is_not_found status then free (index + 1) else rest in
      ((on_open (index + 1) status r).0 ≡ found)
      × ((on_open (index + 1) status r).1 ≡ tries v (last_tried found - index) index)
unfolding on_open
on_open_lem v index success r rest opened same above tried =
    (same, rw (tries-step v (last_tried rest) index above, opened, tried) refl)
on_open_lem v index (warning w) r rest opened same above tried =
    (same, rw (tries-step v (last_tried rest) index above, opened, tried) refl)
on_open_lem v index (error e) r rest opened same above tried =
    elim (Bool-cases (is_not_found (error e))) [
      | inl missing ↦ rw missing (
        refl,
        rw (tries-step v (index + 1) index (omega arith), opened, no_more (index + 1)) refl,
      )
      | inr other ↦
          rw other (same, rw (tries-step v (last_tried rest) index above, opened, tried) refl)
    ]

search_loop_lem :
    (v : Volume) (count index : ℕ)
    → count + index ≡ max_print_screen_files
    → let found = first_free v count index in
      ((search_loop v (suc count) index).0 ≡ found)
      × ((search_loop v (suc count) index).1 ≡ tries v (last_tried found - index) index)
unfolding search_loop
search_loop_lem v zero index h =
    let past : ltb max_print_screen_files (index + 1) ≡ true = ground arith in
    let none_left : max_print_screen_files - index ≡ 0 = omega arith in
    rw (past, none_left) (refl, refl)
search_loop_lem v (suc count) index h =
    let inside : ltb max_print_screen_files (index + 1) ≡ false = ground arith in
    let rest = search_loop_lem v count (index + 1) (omega arith) in
    rw inside (
      on_open_lem v index (v.open_read (index + 1)) (search_loop v (suc count) (index + 1))
        (first_free v count (index + 1)) refl rest.0
        (last_tried-ge v count (index + 1) (omega arith)) rest.1)

-- What follows the search: a free name is created, and on success written and closed; the volume
-- is closed in any case.
abbrev pub finish : Volume → Search → List Event
finish v no_fuel = []
finish v full = volume_closed ∷ []
finish v (free n) =
    if efi_error (v.create n)
    then volume_closed ∷ []
    else created n ∷ bitmap_written n ∷ created_closed n ∷ volume_closed ∷ []

first_free-ne-no_fuel : (v : Volume) (count index : ℕ) → first_free v count index ≢ no_fuel
first_free-ne-no_fuel v zero index e = ground (arith, e)
first_free-ne-no_fuel v (suc count) index e =
    ground (arith, e, first_free-ne-no_fuel v count (index + 1))

on_search-finish :
    (v : Volume) (r : Search × List Event) (found : Search)
    → r.0 ≡ found
    → found ≢ no_fuel
    → on_search v r ≡ some (r.1 ++ finish v found)
unfolding on_search
on_search-finish v (no_fuel, events) found same ended = absurd (ended (sym same))
on_search-finish v (full, events) found same ended = rw (sym same) refl
on_search-finish v (free n, events) found same ended = rw (sym same) (ground arith)

-- The calls for the drive that was found, if any: the names from the first to the last that is tried,
-- and what follows.
abbrev pub captured : (ℕ → Volume) → Option ℕ → List Event
captured volumes none = timer_set ∷ []
captured volumes (some n) =
    let found = first_free (volumes n) 512 0 in
    found_drive n ∷ (tries (volumes n) (last_tried found) 0 ++ finish (volumes n) found)
    ++ timer_set ∷ []

on_drive-captured :
    (volumes : ℕ → Volume) (r : Status × Option ℕ × List Drive.Event) (stored : Option ℕ)
    → r.1 ≡ stored
    → efi_error r.0 ≡ not (is_found r.1)
    → on_drive volumes r ≡ some (captured volumes stored)
unfolding on_drive
on_drive-captured volumes (status, none, calls) stored same tells = rw (tells, sym same) refl
on_drive-captured volumes (status, some n, calls) stored same tells =
    let v = volumes n in
    let s = search_loop_lem v 512 0 refl in
    let found = first_free v 512 0 in
    let whole : last_tried found - 0 ≡ last_tried found = omega arith in
    rw
      (
        tells,
        sym same,
        on_search-finish v (search_loop v 513 0) found s.0 (first_free-ne-no_fuel v 512 0),
        s.1,
        whole,
      )
      refl

-- A request that is not held off, when LocateHandleBuffer gives handles that all have a device
-- path: without a drive that offers itself the callback only sets the timer. On the first such
-- drive it opens for reading the files with the numbers from 1 on, each once and in order, up to the
-- first number of the 512 for which Open answers EFI_NOT_FOUND, or all of them; it closes each file
-- right after it could be opened; it creates the file of that first number, if there is one, and when
-- that succeeds writes and closes it; it closes the volume and sets the timer. It ends on every
-- volume.
pub print_screen_callback-first_free :
    (ready located : Status) (handles : List Handle) (volumes : ℕ → Volume)
    → is_not_ready ready ≡ false
    → efi_error located ≡ false
    → 0 < length handles
    → All HasPaths handles
    → print_screen_callback ready located handles volumes
      ≡ some (captured volumes (first_offer handles 0))
unfolding print_screen_callback
print_screen_callback-first_free ready located handles volumes now fine some_handle paths =
    let f = find_usb_drive_for_print_screen-first_offer located handles fine in
    rw now (
      on_drive-captured volumes (find_usb_drive_for_print_screen located handles)
        (first_offer handles 0) f.0 (f.2 some_handle paths))
