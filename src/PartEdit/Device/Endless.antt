-- ===== src/PartEdit/Device/Endless.antt =====
-- InitDevicePath of PartEdit.c with more handles than its index can tell apart.
use uefi_toolkit_pkg.Base.{
  ℕ, zero, suc, ◌+◌, ◌%◌, ◌^◌, ◌≤◌, ◌<◌, ◌≡◌, refl, ap, ◌∙◌, true, false, List, none, arith, length,
  get_or, ltb, Status, efi_error,
}
use uefi_toolkit_pkg.PartEdit.Device.{
  Handle, no_handle, continues, on_round, round, device_loop, init_device_path,
}
use uefi_toolkit_pkg.PartEdit.Device.First.{loop_step}

device_loop-none :
    (fuel messaging usb index : ℕ) (handles : List Handle)
    → ((i : ℕ) → i < 256 → round messaging usb (get_or handles i no_handle) ≡ continues)
    → 256 ≤ length handles
    → index < 256
    → device_loop fuel messaging usb index handles ≡ none
unfolding device_loop
device_loop-none zero messaging usb index handles passed many low = refl
device_loop-none (suc fuel) messaging usb index handles passed many low =
    let inside : ltb index (length handles) ≡ true = ground (arith, many, low) in
    loop_step fuel messaging usb index handles (get_or handles index no_handle) none inside refl
      (device_loop-none fuel messaging usb ((index + 1) % 2 ^ 8) handles passed many (omega arith))
    ∙ ap (λ r. on_round r index none) (passed index low)

-- With 256 handles or more, of which the first 256 are all passed over, InitDevicePath never ends:
-- it has no result after any number of rounds, whatever the later handles are.
pub init_device_path-none :
    (fuel messaging usb : ℕ) (located : Status) (handles : List Handle)
    → ((i : ℕ) → i < 256 → round messaging usb (get_or handles i no_handle) ≡ continues)
    → 256 ≤ length handles
    → efi_error located ≡ false
    → init_device_path fuel messaging usb located handles ≡ none
unfolding init_device_path
init_device_path-none fuel messaging usb located handles passed many fine =
    rw fine (device_loop-none fuel messaging usb 0 handles passed many (omega arith))
