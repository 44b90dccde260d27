-- ===== src/PrintScreen/Bitmap/Bounds.antt =====
-- WriteBmpToFile stays inside its buffers.
use uefi_toolkit_pkg.Base.{
  and_then, ℕ, zero, suc, ◌+◌, ◌-◌, ◌*◌, ◌/◌, ◌%◌, ◌^◌, ◌≤◌, ◌<◌, ◌≡◌, refl, subst, ◌∙◌, true, List,
  [], ◌∷◌, Option, some, arith, length, drop, length-drop, length-set, set, ltb,
}
use uefi_toolkit_pkg.PrintScreen.Bitmap.{
  Pixel, PixelFormat, red_green_blue_reserved, blue_green_red_reserved, bit_mask, blt_only, Display,
  data_size_per_line, Canvas, put, put_pixel, convert_row, align_image, convert_rows,
}

-- `n` bytes were written.
pub record Advanced (n : ℕ) (c : Canvas) (r : Option Canvas) : Type 0 where
  pub canvas : Canvas
  pub returns : r ≡ some canvas
  pub moved : canvas.image ≡ c.image + n
  pub sized : length canvas.buffer ≡ length c.buffer

put-Advanced : (v : ℕ) (c : Canvas) → c.image < length c.buffer → Advanced 1 c (put v c)
unfolding put
put-Advanced v c room =
    let inside : ltb c.image (length c.buffer) ≡ true = ground arith in
    record {
      canvas = record { buffer = set c.buffer c.image v; image = c.image + 1 };
      returns = rw inside refl;
      moved = refl;
      sized = length-set c.buffer c.image v;
    }

and_then-Advanced :
    (m n : ℕ) (c : Canvas) (r : Option Canvas) (f : Canvas → Option Canvas)
    → Advanced m c r
    → ((e : Canvas)
        → e.image ≡ c.image + m
        → length e.buffer ≡ length c.buffer
        → Advanced n e (f e))
    → Advanced (m + n) c (and_then r f)
and_then-Advanced m n c r f h next =
    let k = next h.canvas h.moved h.sized in
    rw h.returns (record {
      canvas = k.canvas;
      returns = k.returns;
      moved = omega (arith, k.moved, h.moved);
      sized = k.sized ∙ h.sized;
    })

three_puts :
    (a b d : ℕ) (c : Canvas)
    → c.image + 3 ≤ length c.buffer
    → Advanced 3 c (and_then (and_then (put a c) (put b)) (put d))
three_puts a b d c room =
    and_then-Advanced 2 1 c _ (put d)
      (and_then-Advanced 1 1 c _ (put b) (put-Advanced a c (omega arith))
        (λ e at size. put-Advanced b e (omega (arith, at, size))))
      (λ e at size. put-Advanced d e (omega (arith, at, size)))

put_pixel-Advanced :
    (format : PixelFormat) (p : Pixel) (c : Canvas)
    → c.image + 3 ≤ length c.buffer
    → Advanced 3 c (put_pixel format p c)
unfolding put_pixel
put_pixel-Advanced red_green_blue_reserved p c room = three_puts p.red p.green p.blue c room
put_pixel-Advanced blue_green_red_reserved p c room = three_puts p.blue p.green p.red c room
put_pixel-Advanced bit_mask p c room = three_puts p.blue p.green p.red c room
put_pixel-Advanced blt_only p c room = three_puts p.blue p.green p.red c room

convert_row-Advanced :
    (format : PixelFormat) (blt : List Pixel) (n : ℕ) (c : Canvas)
    → n ≤ length blt
    → c.image + n * 3 ≤ length c.buffer
    → Advanced (n * 3) c (convert_row format blt n c)
unfolding convert_row
convert_row-Advanced format blt zero c some_left room = record {
  canvas = c;
  returns = refl;
  moved = omega arith;
  sized = refl;
}
convert_row-Advanced format [] (suc n) c some_left room = absurd (omega arith)
convert_row-Advanced format (p ∷ blt) (suc n) c some_left room =
    let count : 3 + n * 3 ≡ suc n * 3 = omega arith in
    subst (λ k. Advanced k c (and_then (put_pixel format p c) (convert_row format blt n))) count
      (and_then-Advanced 3 (n * 3) c (put_pixel format p c) (convert_row format blt n)
        (put_pixel-Advanced format p c (omega arith))
        (λ e at size. convert_row-Advanced format blt n e (omega arith) (omega (arith, at, size))))

-- The size of a line is the size of its pixels, up to the next multiple of 4.
data_size_per_line_lem :
    (width : ℕ) → width * 24 + 31 < 2 ^ 32 → data_size_per_line width ≡ (width * 3 + 3) / 4 * 4
unfolding data_size_per_line
data_size_per_line_lem width narrow = omega arith

-- The loop ends, and the buffer keeps its size.
pub record Converted (c : Canvas) (r : Option Canvas) : Type 0 where
  pub canvas : Canvas
  pub returns : r ≡ some canvas
  pub sized : length canvas.buffer ≡ length c.buffer

pub convert_rows-Converted :
    (d : Display) (n : ℕ) (c : Canvas)
    → d.width * 24 + 31 < 2 ^ 32
    → n * d.width ≤ length d.pixels
    → length d.pixels < 2 ^ 32
    → c.image + n * data_size_per_line d.width ≤ length c.buffer
    → (d.header_address + c.image) % 4 ≡ 0
    → d.header_address + length c.buffer + 3 < 2 ^ 64
    → Converted c (convert_rows d n c)
unfolding convert_rows align_image
convert_rows-Converted d zero c narrow some_left few room aligned low = record {
  canvas = c;
  returns = refl;
  sized = refl;
}
convert_rows-Converted d (suc n) c narrow some_left few room aligned low =
    let line = data_size_per_line_lem d.width narrow in
    let pixels_step : suc n * d.width ≡ d.width + n * d.width = omega arith in
    let lines_step : suc n * data_size_per_line d.width
        ≡ data_size_per_line d.width + n * data_size_per_line d.width =
      omega arith in
    let small : n * d.width % 2 ^ 32 ≡ n * d.width = omega arith in
    let rest : length (drop (n * d.width) d.pixels) ≡ length d.pixels - n * d.width =
      length-drop (n * d.width) d.pixels in
    let row =
      convert_row-Advanced d.format (drop (n * d.width) d.pixels) d.width c (omega (arith, rest))
        (omega (arith, line, lines_step)) in
    let e = row.canvas in
    let moved : e.image ≡ c.image + d.width * 3 = row.moved in
    let sized : length e.buffer ≡ length c.buffer = row.sized in
    let next : (d.header_address + e.image + 3) % 2 ^ 64 / 4 * 4 - d.header_address
        ≡ c.image + data_size_per_line d.width =
      omega (arith, moved, line, lines_step) in
    let more =
      convert_rows-Converted d n
        (record { buffer = e.buffer; image = c.image + data_size_per_line d.width }) narrow
        (omega arith) few (omega (arith, sized, lines_step)) (omega (arith, line))
        (omega (arith, sized)) in
    rw (small, row.returns, next)
      (record {
        canvas = more.canvas;
        returns = more.returns;
        sized = omega (arith, more.sized, sized);
      })
