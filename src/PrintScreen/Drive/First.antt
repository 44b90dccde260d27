-- ===== src/PrintScreen/Drive/First.antt =====
-- FindUsbDriveForPrintScreen finds the first drive that asks for screen shots.
use uefi_toolkit_pkg.Base.{
  ℕ, suc, ◌+◌, ◌<◌, ◌≡◌, refl, sym, ◌∙◌, Bool, true, false, ◌&&◌, not, List, [], ◌∷◌, ◌++◌, Option,
  none, some, arith, All, length, if◌then◌else◌, Status, efi_error,
}
use uefi_toolkit_pkg.PrintScreen.Drive.{
  Handle, Event, volume_opened, volume_closed, file_opened, file_closed, buffer_freed, visit,
  on_visit, find_loop, find_usb_drive_for_print_screen,
}

-- A handle on USB with block I/O and a file system that holds PrintScreenEnable.txt.
abbrev pub offers : Handle → Bool
offers h =
    h.usb_path
    && (not (efi_error h.usb)
        && (h.block_path
            && (not (efi_error h.block_io)
                && (not (efi_error h.file_system)
                    && (not (efi_error h.volume) && not (efi_error h.enable_file))))))

abbrev pub first_offer : List Handle → ℕ → Option ℕ
first_offer [] index = none
first_offer (h ∷ handles) index =
    let rest = first_offer handles (index + 1) in if offers h then some index else rest

abbrev pub opens : List Event → ℕ
opens [] = 0
opens (volume_opened n ∷ es) = suc (opens es)
opens (_ ∷ es) = opens es

abbrev pub closes : List Event → ℕ
closes [] = 0
closes (volume_closed n ∷ es) = suc (closes es)
closes (_ ∷ es) = closes es

pub opens-append : (es fs : List Event) → opens (es ++ fs) ≡ opens es + opens fs
opens-append [] fs = omega arith
opens-append (volume_opened n ∷ es) fs = omega (arith, opens-append es fs)
opens-append (volume_closed n ∷ es) fs = opens-append es fs
opens-append (file_opened ∷ es) fs = opens-append es fs
opens-append (file_closed ∷ es) fs = opens-append es fs
opens-append (buffer_freed ∷ es) fs = opens-append es fs

pub closes-append : (es fs : List Event) → closes (es ++ fs) ≡ closes es + closes fs
closes-append [] fs = omega arith
closes-append (volume_opened n ∷ es) fs = closes-append es fs
closes-append (volume_closed n ∷ es) fs = omega (arith, closes-append es fs)
closes-append (file_opened ∷ es) fs = closes-append es fs
closes-append (file_closed ∷ es) fs = closes-append es fs
closes-append (buffer_freed ∷ es) fs = closes-append es fs

abbrev pub count_volume : Option ℕ → ℕ
count_volume none = 0
count_volume (some v) = 1

abbrev pub is_found : Option ℕ → Bool
is_found none = false
is_found (some v) = true

-- What one round comes to.
visit_lem :
    (index : ℕ) (h : Handle) (status : Status)
    → let r = visit index h status in
      (r.1 ≡ offers h)
      × (opens r.2 ≡ closes r.2 + (if r.1 then 1 else 0))
      × (h.usb_path && h.block_path ≡ true → efi_error r.0 ≡ not r.1)
unfolding visit
visit_lem index h status = ground arith

abbrev pub HasPaths : Handle → Type 0
HasPaths h = h.usb_path && h.block_path ≡ true

-- What a search of some handles comes to: the first one that offers itself, each other volume
-- closed again, and, when every handle has a device path, a status that tells.
record Found (handles : List Handle) (index : ℕ) (status : Status)
    (r : Status × Option ℕ × List Event) : Type 0 where
  first : r.1 ≡ first_offer handles index
  balanced : opens r.2 ≡ closes r.2 + count_volume r.1
  honest :
      All HasPaths handles
      → efi_error r.0 ≡ elim handles [ [] ↦ efi_error status | _ ∷ _ ↦ not (is_found r.1) ]

tail_honest :
    (handles : List Handle) (index : ℕ) (s : Status) (r : Status × Option ℕ × List Event)
    → Found handles index s r
    → efi_error s ≡ true
    → All HasPaths handles
    → efi_error r.0 ≡ not (is_found r.1)
tail_honest [] index s r f failed paths = rw f.first (f.honest paths ∙ failed)
tail_honest (h ∷ handles) index s r f failed paths = f.honest paths

on_visit-Found :
    (h : Handle) (handles : List Handle) (index : ℕ) (status : Status)
    (v : Status × Bool × List Event) (next : Status → Status × Option ℕ × List Event)
    → v.1 ≡ offers h
    → opens v.2 ≡ closes v.2 + (if v.1 then 1 else 0)
    → (h.usb_path && h.block_path ≡ true → efi_error v.0 ≡ not v.1)
    → ((s : Status) → Found handles (index + 1) s (next s))
    → Found (h ∷ handles) index status (on_visit index v next)
unfolding on_visit
on_visit-Found h handles index status (s, true, events) next offered even tells rest = record {
  first = rw (sym offered) refl;
  balanced = even;
  honest = λ paths. tells paths.0;
}
on_visit-Found h handles index status (s, false, events) next offered even tells rest = record {
  first = rw (sym offered) ((rest s).first);
  balanced = omega (
    arith,
    opens-append events (next s).2,
    closes-append events (next s).2,
    even,
    (rest s).balanced,
  );
  honest = λ paths. tail_honest handles (index + 1) s (next s) (rest s) (tells paths.0) paths.1;
}

find_loop-Found :
    (handles : List Handle) (index : ℕ) (status : Status)
    → Found handles index status (find_loop handles index status)
unfolding find_loop
find_loop-Found [] index status = record {
  first = refl;
  balanced = omega arith;
  honest = λ p. refl;
}
find_loop-Found (h ∷ handles) index status =
    let v = visit_lem index h status in
    on_visit-Found h handles index status (visit index h status) (find_loop handles (index + 1)) v.0
      v.1 v.2 (find_loop-Found handles (index + 1))

some_honest :
    (handles : List Handle) (index : ℕ) (s : Status) (r : Status × Option ℕ × List Event)
    → Found handles index s r
    → 0 < length handles
    → All HasPaths handles
    → efi_error r.0 ≡ not (is_found r.1)
some_honest [] index s r f some_handle paths = absurd (omega arith)
some_honest (h ∷ handles) index s r f some_handle paths = f.honest paths

-- When LocateHandleBuffer succeeds, the volume found is that of the first handle on USB with
-- PrintScreenEnable.txt, and every other volume opened on the way is closed. If there are handles
-- and each has a device path, the status is an error exactly when no volume is found.
pub find_usb_drive_for_print_screen-first_offer :
    (located : Status) (handles : List Handle)
    → efi_error located ≡ false
    → let r = find_usb_drive_for_print_screen located handles in
      (r.1 ≡ first_offer handles 0)
      × (opens r.2 ≡ closes r.2 + count_volume r.1)
      × (0 < length handles → All HasPaths handles → efi_error r.0 ≡ not (is_found r.1))
unfolding find_usb_drive_for_print_screen
find_usb_drive_for_print_screen-first_offer located handles fine =
    let f = find_loop-Found handles 0 located in
    let r = find_loop handles 0 located in
    let even = f.balanced in
    rw fine (
      f.first,
      omega (
        arith,
        opens-append r.2 (buffer_freed ∷ []),
        closes-append r.2 (buffer_freed ∷ []),
        even,
      ),
      λ some_handle paths. some_honest handles 0 located r f some_handle paths,
    )

find_loop_pass :
    (handles : List Handle) (index : ℕ) (status : Status)
    → All (λ h. h.usb_path ≡ false) handles
    → find_loop handles index status ≡ (status, none, [])
unfolding find_loop on_visit visit
find_loop_pass [] index status none_has = refl
find_loop_pass (h ∷ handles) index status none_has =
    rw (none_has.0, find_loop_pass handles (index + 1) status none_has.1) refl

-- When no handle has a device path, the search reports the success of LocateHandleBuffer although
-- it has found no volume.
pub find_usb_drive_for_print_screen_unset :
    (located : Status) (handles : List Handle)
    → efi_error located ≡ false
    → All (λ h. h.usb_path ≡ false) handles
    → find_usb_drive_for_print_screen located handles ≡ (located, none, buffer_freed ∷ [])
unfolding find_usb_drive_for_print_screen
find_usb_drive_for_print_screen_unset located handles fine none_has =
    rw (fine, find_loop_pass handles 0 located none_has) refl
