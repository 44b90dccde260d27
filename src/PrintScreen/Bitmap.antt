-- ===== src/PrintScreen/Bitmap.antt =====
-- WriteBmpToFile of Drivers/Dxe/PrintScreenLogger/PrintScreenLogger.c. The graphics protocol, the
-- pool and the file are parameters, and so are the size of BMP_IMAGE_HEADER and its place in
-- memory. The header stays a record in front of the image.
pub mod Bounds
pub mod Safety
use uefi_toolkit_pkg.Base.{
  ℕ, zero, suc, ◌+◌, ◌-◌, ◌*◌, ◌/◌, ◌%◌, ◌^◌, Bool, true, false, not, List, [], ◌∷◌, ◌++◌, Option,
  none, some, and_then, Bytes, length, drop, replicate, set, ltb, ◌==◌, if◌then◌else◌, Status,
  success, error, efi_error, invalid_parameter, unsupported, out_of_resources, bad_buffer_size,
}

pub record Pixel : Type 0 where
  pub blue : ℕ
  pub green : ℕ
  pub red : ℕ

pub data PixelFormat : Type 0 where
  red_green_blue_reserved blue_green_red_reserved bit_mask blt_only : PixelFormat

-- The outside: LocateProtocol, the mode, whether the pool has room (for BltBuffer, for the
-- bitmap), Blt with the pixels it leaves in BltBuffer, and Write with the size it reports.
pub record Display : Type 0 where
  pub located : Status
  pub format : PixelFormat
  pub width : ℕ
  pub height : ℕ
  pub blt_room : Bool
  pub blt : Status
  pub pixels : List Pixel
  pub header_size : ℕ
  pub header_address : ℕ
  pub bmp_room : ℕ → Bool
  pub write : ℕ → Status × ℕ

-- `& (~0x3)`
abbrev pub align_down : ℕ → ℕ
align_down n = n / 4 * 4

-- HorizontalResolution is a UINT32, and so is the sum before the shift.
unfoldable pub data_size_per_line : ℕ → ℕ
data_size_per_line width = align_down ((width * 24 + 31) % 2 ^ 32 / 8)

unfoldable pub image_offset : ℕ → ℕ
image_offset header_size = align_down (header_size + 3)

unfoldable pub bmp_buffer_size : ℕ → ℕ → ℕ → ℕ
bmp_buffer_size header_size width height =
    (data_size_per_line width * height + header_size + image_offset header_size) % 2 ^ 64

-- The bitmap and the offset of Image in it.
pub record Canvas : Type 0 where
  pub buffer : Bytes
  pub image : ℕ

-- `*Image++ = v`; `none` stands for a write outside the bitmap.
unfoldable pub put : ℕ → Canvas → Option Canvas
put v c =
    if ltb c.image (length c.buffer)
    then some (record { buffer = set c.buffer c.image v; image = c.image + 1 })
    else none

unfoldable pub put_pixel : PixelFormat → Pixel → Canvas → Option Canvas
put_pixel red_green_blue_reserved p c = and_then (and_then (put p.red c) (put p.green)) (put p.blue)
put_pixel _ p c = and_then (and_then (put p.blue c) (put p.green)) (put p.red)

-- The inner loop, with the pixels from Blt on and the rounds left; `none` also stands for a read
-- outside BltBuffer.
unfoldable pub convert_row : PixelFormat → List Pixel → ℕ → Canvas → Option Canvas
convert_row format blt zero c = some c
convert_row format [] (suc n) c = none
convert_row format (p ∷ blt) (suc n) c = and_then (put_pixel format p c) (convert_row format blt n)

-- Image at the next 4-byte boundary of memory.
unfoldable pub align_image : ℕ → Canvas → Canvas
align_image address c = record c { image = align_down ((address + c.image + 3) % 2 ^ 64) - address }

-- The outer loop, with the rounds left: the rows from the last to the first.
unfoldable pub convert_rows : Display → ℕ → Canvas → Option Canvas
convert_rows d zero c = some c
convert_rows d (suc n) c =
    and_then (convert_row d.format (drop (n * d.width % 2 ^ 32) d.pixels) d.width c)
      (λ c'. convert_rows d n (align_image d.header_address c'))

pub data Event : Type 0 where
  blt_allocated blt_freed bmp_allocated bmp_freed : Event
  wrote : Bytes → Event

-- After the conversion: write the file, and free both buffers.
unfoldable pub write_file : Display → ℕ → Option Canvas → Option (Status × List Event)
write_file d size none = none
write_file d size (some c) = some (
  if (d.write size).1 == size then (d.write size).0 else error bad_buffer_size,
  blt_allocated ∷ bmp_allocated ∷ wrote c.buffer ∷ blt_freed ∷ bmp_freed ∷ [],
)

-- The status and the calls; `none` stands for an access outside a buffer.
unfoldable pub write_bmp_to_file : Display → Option (Status × List Event)
write_bmp_to_file d =
    let size = bmp_buffer_size d.header_size d.width d.height in
    let start : Canvas = record { buffer = replicate size 0; image = image_offset d.header_size } in
    let supported : Bool = elim d.format [
      | red_green_blue_reserved ↦ true
      | blue_green_red_reserved ↦ true
      | bit_mask ↦ false
      | blt_only ↦ false
    ] in
    if efi_error d.located
    then some (d.located, [])
    else if not supported
    then some (error unsupported, [])
    else if not d.blt_room
    then some (error out_of_resources, [])
    else if efi_error d.blt
    then some (d.blt, blt_allocated ∷ blt_freed ∷ [])
    else if ltb (2 ^ 32 - 1) size
    then some (error invalid_parameter, blt_allocated ∷ blt_freed ∷ [])
    else if not (d.bmp_room size)
    then some (error out_of_resources, blt_allocated ∷ blt_freed ∷ [])
    else write_file d size (convert_rows d d.height start)
