-- ===== src/PartEdit/Device/First.antt =====
-- InitDevicePath of PartEdit.c takes the first disk that will do.
use uefi_toolkit_pkg.Base.{
  ℕ, zero, suc, ◌+◌, ◌%◌, ◌^◌, ◌<◌, ◌≡◌, refl, sym, ap, ◌∙◌, true, false, List, [], ◌∷◌, ◌++◌,
  append_assoc, Option, some, arith, length, length-append, get_or, get_or-append_self, ltb, Status,
  error, efi_error, device_error,
}
use uefi_toolkit_pkg.PartEdit.Device.{
  Handle, no_handle, Round, returns, continues, breaks, on_round, round, Choice, fails, chosen,
  device_loop, init_device_path,
}

-- What a round decides, when the later ones come to `next`.
abbrev pub decide : Round → ℕ → Choice → Choice
decide (returns status) index next = fails status
decide continues index next = next
decide breaks index next = chosen index

-- The handles one after the other: the first that is not passed over decides.
abbrev pub first_device : (Handle → Round) → ℕ → List Handle → Choice
first_device look index [] = fails (error device_error)
first_device look index (h ∷ handles) =
    decide (look h) index (first_device look (index + 1) handles)

on_round-decide :
    (r : Round) (index : ℕ) (c : Choice) → on_round r index (some c) ≡ some (decide r index c)
on_round-decide (returns status) index c = refl
on_round-decide continues index c = refl
on_round-decide breaks index c = refl

pub loop_step :
    (fuel messaging usb index : ℕ) (handles : List Handle) (h : Handle) (next : Option Choice)
    → ltb index (length handles) ≡ true
    → get_or handles index no_handle ≡ h
    → device_loop fuel messaging usb ((index + 1) % 2 ^ 8) handles ≡ next
    → device_loop (suc fuel) messaging usb index handles
      ≡ on_round (round messaging usb h) index next
unfolding device_loop
loop_step fuel messaging usb index handles h next inside at rest = rw (inside, at, rest) refl

loop_end :
    (fuel messaging usb index : ℕ) (handles : List Handle)
    → ltb index (length handles) ≡ false
    → device_loop (suc fuel) messaging usb index handles ≡ some (fails (error device_error))
unfolding device_loop
loop_end fuel messaging usb index handles outside = rw outside refl

device_loop-first :
    (fuel messaging usb index : ℕ) (done handles : List Handle)
    → index ≡ length done
    → length done + length handles < 256
    → length handles < fuel
    → device_loop fuel messaging usb index (done ++ handles)
      ≡ some (first_device (round messaging usb) index handles)
device_loop-first zero messaging usb index done handles at few enough = absurd (omega arith)
device_loop-first (suc fuel) messaging usb index done [] at few enough =
    let size = length-append done [] in
    let outside : ltb index (length (done ++ [])) ≡ false = ground (arith, size, at) in
    loop_end fuel messaging usb index (done ++ []) outside
device_loop-first (suc fuel) messaging usb index done (h ∷ handles) at few enough =
    let size = length-append done (h ∷ handles) in
    let inside : ltb index (length (done ++ h ∷ handles)) ≡ true = ground (arith, size, at) in
    let here : get_or (done ++ h ∷ handles) index no_handle ≡ h =
      ap (λ i. get_or (done ++ h ∷ handles) i no_handle) at
      ∙ get_or-append_self done handles h no_handle in
    let wrap : (index + 1) % 2 ^ 8 ≡ index + 1 = omega (arith, at) in
    let rest =
      ap (λ i. device_loop fuel messaging usb i (done ++ h ∷ handles)) wrap
      ∙ ap (device_loop fuel messaging usb (index + 1)) (sym (append_assoc done (h ∷ []) handles))
      ∙ device_loop-first fuel messaging usb (index + 1) (done ++ h ∷ []) handles
          (omega (arith, at, length-append done (h ∷ [])))
          (omega (arith, length-append done (h ∷ []), few)) (omega (arith, enough)) in
    loop_step fuel messaging usb index (done ++ h ∷ handles) h
      (some (first_device (round messaging usb) (index + 1) handles)) inside here rest
    ∙ on_round-decide (round messaging usb h) index
        (first_device (round messaging usb) (index + 1) handles)

-- With fewer than 256 handles InitDevicePath ends, and it does what a look at the handles in their
-- order does: the first on which a protocol is missing makes it fail, and the first that is a disk,
-- neither a partition nor removable nor on USB, is chosen, if it comes before that one.
pub init_device_path-first :
    (messaging usb : ℕ) (located : Status) (handles : List Handle)
    → length handles < 256
    → efi_error located ≡ false
    → init_device_path 256 messaging usb located handles
      ≡ some (first_device (round messaging usb) 0 handles)
unfolding init_device_path
init_device_path-first messaging usb located handles few fine =
    rw fine (device_loop-first 256 messaging usb 0 [] handles refl (omega (arith, few)) few)
