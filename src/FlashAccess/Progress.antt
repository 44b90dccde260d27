-- ===== src/FlashAccess/Progress.antt =====
-- The percentages that PerformFlashWriteWithProgress reports.
use native.Mathlib.Nat.{
  mul-le-mul, mul-le-mul_right, mul_comm, suc-mul, div-lt_iff_lt-mul, le-div_iff_mul-le,
  div-mul-le_self, add-mul,
}
use uefi_toolkit_pkg.Base.{ℕ, suc, ◌+◌, ◌-◌, ◌*◌, ◌/◌, ◌%◌, ◌^◌, ◌≤◌, ◌<◌, ◌≡◌, arith}
use uefi_toolkit_pkg.FlashAccess.Update.{percentage}

-- The share of `width` that `index` of `count` blocks make is not more than the whole.
share_le : (index count width : ℕ) → 0 < count → index ≤ count → index * width / count ≤ width
share_le index count width some_block inside =
    let product : index * width ≤ count * width = mul-le-mul_right width inside in
    let whole : suc width * count ≡ width * count + count = suc-mul width count in
    let swap : width * count ≡ count * width = mul_comm width count in
    let less : index * width / count < suc width =
      (div-lt_iff_lt-mul some_block).1 (omega (arith, product, whole, swap)) in
    omega (arith, less)

share_mono :
    (index count width : ℕ) → 0 < count → index * width / count ≤ (index + 1) * width / count
share_mono index count width some_block =
    let floor : index * width / count * count ≤ index * width =
      div-mul-le_self (index * width) count in
    let step : (index + 1) * width ≡ index * width + 1 * width = add-mul index 1 width in
    (le-div_iff_mul-le some_block).1 (omega (arith, floor, step))

-- Without wrap-around.
percentage_eq :
    (start end index count : ℕ)
    → start ≤ end
    → end < 2 ^ 32
    → 0 < count
    → count < 2 ^ 32
    → index ≤ count
    → percentage start end index count ≡ start + index * (end - start) / count
unfolding percentage
percentage_eq start end index count ordered narrow some_block few inside =
    let width : (end + 2 ^ 64 - start) % 2 ^ 64 ≡ end - start = omega arith in
    let few_blocks : index ≤ 0xffffffff = omega arith in
    let small : end - start ≤ 0xffffffff = omega arith in
    let product : index * (end - start) ≤ 0xffffffff * 0xffffffff = mul-le-mul few_blocks small in
    let unwrapped : index * (end - start) % 2 ^ 64 ≡ index * (end - start) =
      omega (arith, product) in
    let share = share_le index count (end - start) some_block inside in
    rw (width, unwrapped) (omega (arith, share))

-- With percentages and a number of blocks below 2^32, each report lies between the start and the
-- end percentage, and no report is below the one before it.
pub percentage_rises :
    (start end index count : ℕ)
    → start ≤ end
    → end < 2 ^ 32
    → count < 2 ^ 32
    → index < count
    → (start ≤ percentage start end index count)
      × (percentage start end index count ≤ percentage start end (index + 1) count)
      × (percentage start end (index + 1) count ≤ end)
percentage_rises start end index count ordered narrow few inside =
    let now = percentage_eq start end index count ordered narrow (omega arith) few (omega arith) in
    let next =
      percentage_eq start end (index + 1) count ordered narrow (omega arith) few (omega arith) in
    let bound = share_le (index + 1) count (end - start) (omega arith) (omega arith) in
    let more = share_mono index count (end - start) (omega arith) in
    (omega (arith, now), omega (arith, now, next, more), omega (arith, next, bound))
