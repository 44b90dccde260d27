-- ===== src/PrintScreen/Bitmap/Safety.antt =====
-- WriteBmpToFile as a whole: its buffers, on every path.
use uefi_toolkit_pkg.Base.{
  ℕ, ◌+◌, ◌-◌, ◌*◌, ◌%◌, ◌^◌, ◌≤◌, ◌<◌, ◌≡◌, refl, ◌∙◌, Bool, true, false, not, List, [], ◌∷◌,
  Option, none, some, arith, length, length-replicate, replicate, ltb, if◌then◌else◌, Status,
  efi_error, error, invalid_parameter, out_of_resources, unsupported,
}
use uefi_toolkit_pkg.PrintScreen.Bitmap.{
  red_green_blue_reserved, blue_green_red_reserved, bit_mask, blt_only, Display, data_size_per_line,
  image_offset, bmp_buffer_size, Canvas, convert_rows, Event, blt_allocated, blt_freed,
  bmp_allocated, bmp_freed, wrote, write_file, write_bmp_to_file,
}
use uefi_toolkit_pkg.PrintScreen.Bitmap.Bounds.{Converted, convert_rows-Converted}

-- A display whose mode the driver can take: no sum wraps, BltBuffer has all pixels of the screen,
-- and the bitmap is at an address that the pool gives, a multiple of 4.
pub record Shown (d : Display) : Type 0 where
  pub narrow : d.width * 24 + 31 < 2 ^ 32
  pub enough : d.height * d.width ≤ length d.pixels
  pub few : length d.pixels < 2 ^ 32
  pub aligned : d.header_address % 4 ≡ 0
  pub low :
      d.header_address
        + (data_size_per_line d.width * d.height + d.header_size + image_offset d.header_size)
        + 3
      < 2 ^ 64

-- The calls of a run, from a state where BltBuffer and BmpHeader are allocated or not: a buffer is
-- allocated and freed in turn, Write is called while the bitmap is allocated and with as many bytes
-- as it is told, and in the end neither buffer is allocated.
abbrev pub Clean : Bool → Bool → ℕ → List Event → Type 0
Clean blt bmp size [] = (blt ≡ false) × (bmp ≡ false)
Clean blt bmp size (blt_allocated ∷ es) = (blt ≡ false) × Clean true bmp size es
Clean blt bmp size (blt_freed ∷ es) = (blt ≡ true) × Clean false bmp size es
Clean blt bmp size (bmp_allocated ∷ es) = (bmp ≡ false) × Clean blt true size es
Clean blt bmp size (bmp_freed ∷ es) = (bmp ≡ true) × Clean blt false size es
Clean blt bmp size (wrote bytes ∷ es) = (bmp ≡ true) × (length bytes ≡ size) × Clean blt bmp size es

-- No access outside a buffer, and clean calls.
abbrev pub Safe : ℕ → Option (Status × List Event) → Type 0
Safe size none = ⊥
Safe size (some (status, events)) = Clean false false size events

write_file-Safe :
    (d : Display) (size : ℕ) (c : Canvas) (r : Option Canvas)
    → Converted c r
    → length c.buffer ≡ size
    → Safe size (write_file d size r)
unfolding write_file
write_file-Safe d size c r done same =
    rw done.returns (refl, (refl, (refl, done.sized ∙ same, (refl, (refl, (refl, refl))))))

start_room :
    (d : Display)
    → Shown d
    → bmp_buffer_size d.header_size d.width d.height
      ≡ data_size_per_line d.width * d.height + d.header_size + image_offset d.header_size
unfolding bmp_buffer_size
start_room d h = omega (arith, h.low)

start-Safe :
    (d : Display) (size : ℕ)
    → size ≡ bmp_buffer_size d.header_size d.width d.height
    → Shown d
    → Safe size (
        write_file d size (
          convert_rows d d.height
            (record { buffer = replicate size 0; image = image_offset d.header_size })))
unfolding image_offset
start-Safe d size same h =
    let whole = start_room d h in
    let sized : length (replicate {A = ℕ} size 0) ≡ size = length-replicate size 0 in
    let start : Canvas = record { buffer = replicate size 0; image = image_offset d.header_size } in
    write_file-Safe d size start (convert_rows d d.height start)
      (convert_rows-Converted d d.height start h.narrow h.enough h.few
        (omega (arith, sized, same, whole)) (omega (arith, h.aligned))
        (omega (arith, sized, same, whole, h.low)))
      sized

choose :
    (size : ℕ) (b : Bool) (x y : Option (Status × List Event))
    → Safe size x
    → Safe size y
    → Safe size (if b then x else y)
choose size true x y p q = p
choose size false x y p q = q

-- WriteBmpToFile on a display whose line size and buffer size do not wrap around, for which BltBuffer
-- has a pixel for each place of the screen and fewer than 2^32 in all, and whose bitmap lies at an
-- address that is a multiple of 4: no access is outside BltBuffer or the bitmap; on every path each
-- buffer that is allocated is freed once and no other is; and Write is called, if at all, before the
-- bitmap is freed, with a bitmap of just the size it is told.
pub write_bmp_to_file-Safe :
    (d : Display)
    → Shown d
    → Safe (bmp_buffer_size d.header_size d.width d.height) (write_bmp_to_file d)
unfolding write_bmp_to_file
write_bmp_to_file-Safe d h =
    let end = start-Safe d (bmp_buffer_size d.header_size d.width d.height) refl h in
    let unwritten : Clean false false (bmp_buffer_size d.header_size d.width d.height) [] =
      (refl, refl) in
    let size = bmp_buffer_size d.header_size d.width d.height in
    let early : List Event = blt_allocated ∷ blt_freed ∷ [] in
    let no_bitmap : Clean false false size early = (refl, (refl, (refl, refl))) in
    let supported : Bool = elim d.format [
      | red_green_blue_reserved ↦ true
      | blue_green_red_reserved ↦ true
      | bit_mask ↦ false
      | blt_only ↦ false
    ] in
    let last =
      choose size (not (d.bmp_room size)) (some (error out_of_resources, early)) _ no_bitmap end in
    let sized =
      choose size (ltb (2 ^ 32 - 1) size) (some (error invalid_parameter, early)) _ no_bitmap
        last in
    let copied = choose size (efi_error d.blt) (some (d.blt, early)) _ no_bitmap sized in
    let with_room =
      choose size (not d.blt_room) (some (error out_of_resources, [])) _ unwritten copied in
    let in_mode =
      choose size (not supported) (some (error unsupported, [])) _ unwritten with_room in
    choose size (efi_error d.located) (some (d.located, [])) _ unwritten in_mode
