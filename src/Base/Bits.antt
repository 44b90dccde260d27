-- ===== src/Base/Bits.antt =====
-- What the C operators `|` and `&` compute in this code: fields side by side, and a low mask.
use Prim.Native.Nat.{
  ℕ, zero, suc, ◌+◌, ◌-◌, ◌*◌, ◌/◌, ◌%◌, ◌^◌, ◌≤◌, ◌<◌, min, max, bit_and, bit_or, digits,
  bit_and-bitwise, bit_or-bitwise,
}
use mathlib.Core.Path.{◌≡◌, refl, ap, ◌∙◌}
use native.Mathlib.Nat.{pow-suc, one-le-pow}
use native.Mathlib.Omega.{arith}

-- An operation on digits that carries on below the end of its first number.
module _ (past : ℕ → ℕ) (op : ℕ → ℕ → ℕ)
    (carries : (y : ℕ) → past y ≡ past (y / 2) * 2 + op 0 (y % 2)) where
  digits-zero : (count y : ℕ) → digits past op count 0 y ≡ past y
  digits-zero zero y = refl
  digits-zero (suc count) y = refl

  lowest_digit :
      (count x y : ℕ)
      → digits past op (suc count) x y
        ≡ digits past op count (x / 2) (y / 2) * 2 + op (x % 2) (y % 2)
  lowest_digit count zero y = omega (arith, carries y, digits-zero count (y / 2))
  lowest_digit count (suc x) y = refl

abbrev or_digits : ℕ → ℕ → ℕ → ℕ
or_digits count x y = digits (λ b. b) max count x y

abbrev and_digits : ℕ → ℕ → ℕ → ℕ
and_digits count x y = digits (λ b. 0) min count x y

or_lowest :
    (count x y : ℕ)
    → or_digits (suc count) x y ≡ or_digits count (x / 2) (y / 2) * 2 + max (x % 2) (y % 2)
or_lowest count x y = lowest_digit (λ b. b) max (λ b. omega arith) count x y

and_lowest :
    (count x y : ℕ)
    → and_digits (suc count) x y ≡ and_digits count (x / 2) (y / 2) * 2 + min (x % 2) (y % 2)
and_lowest count x y = lowest_digit (λ b. 0) min (λ b. omega arith) count x y

or_nothing : (count x : ℕ) → x ≤ count → or_digits count x 0 ≡ x
or_nothing zero x enough = omega arith
or_nothing (suc count) x enough =
    omega (arith, or_lowest count x 0, or_nothing count (x / 2) (omega arith))

and_nothing : (count x : ℕ) → and_digits count x 0 ≡ 0
and_nothing zero x = refl
and_nothing (suc count) x = omega (arith, and_lowest count x 0, and_nothing count (x / 2))

shifted_once : (k high : ℕ) → high * 2 ^ suc k ≡ high * 2 ^ k * 2
shifted_once k high =
    let grown : high * 2 ^ suc k ≡ high * (2 ^ k * 2) = ap (λ (p : ℕ). high * p) (pow-suc 2 k) in
    omega (arith, grown)

or_side_by_side :
    (k count high low : ℕ)
    → low < 2 ^ k
    → high * 2 ^ k ≤ count
    → or_digits count (high * 2 ^ k) low ≡ high * 2 ^ k + low
or_side_by_side zero count high low small enough =
    let none_left : low ≡ 0 = omega arith in
    rw none_left (omega (arith, or_nothing count (high * 2 ^ 0) enough))
or_side_by_side (suc k) zero high low small enough = omega arith
or_side_by_side (suc k) (suc count) high low small enough =
    let shift = shifted_once k high in
    let half : high * 2 ^ suc k / 2 ≡ high * 2 ^ k = omega (arith, shift) in
    let even : high * 2 ^ suc k % 2 ≡ 0 = omega (arith, shift) in
    rw (or_lowest count (high * 2 ^ suc k) low, half, even)
      (omega (
        arith,
        shift,
        or_side_by_side k count high (low / 2) (omega (arith, pow-suc 2 k)) (omega (arith, shift)),
      ))

-- `(high << k) | low` is a sum when `low` has `k` bits.
pub bit_or_fields : (k high low : ℕ) → low < 2 ^ k → bit_or (high * 2 ^ k) low ≡ high * 2 ^ k + low
bit_or_fields k high low small =
    bit_or-bitwise (high * 2 ^ k) low
    ∙ or_side_by_side k (high * 2 ^ k) high low small (omega arith)

and_low_field :
    (k count high low : ℕ)
    → low < 2 ^ k
    → high * 2 ^ k + low ≤ count
    → and_digits count (high * 2 ^ k + low) (2 ^ k - 1) ≡ low
and_low_field zero count high low small enough =
    and_nothing count (high * 2 ^ 0 + low) ∙ omega arith
and_low_field (suc k) zero high low small enough = omega arith
and_low_field (suc k) (suc count) high low small enough =
    let shift = shifted_once k high in
    let wider = pow-suc 2 k in
    let some_bit = one-le-pow k 2 in
    let half : (high * 2 ^ suc k + low) / 2 ≡ high * 2 ^ k + low / 2 = omega (arith, shift) in
    let odd : (high * 2 ^ suc k + low) % 2 ≡ low % 2 = omega (arith, shift) in
    let mask : (2 ^ suc k - 1) / 2 ≡ 2 ^ k - 1 = ground (arith, wider, some_bit) in
    let mask_odd : (2 ^ suc k - 1) % 2 ≡ 1 = ground (arith, wider, some_bit) in
    rw (and_lowest count (high * 2 ^ suc k + low) (2 ^ suc k - 1), half, odd, mask, mask_odd)
      (omega
        (arith, and_low_field k count high (low / 2) (omega (arith, wider)) (omega (arith, shift))))

-- A mask of `k` ones keeps the remainder by `2 ^ k`.
pub bit_and_mask : (k x : ℕ) → bit_and x (2 ^ k - 1) ≡ x % 2 ^ k
bit_and_mask k x =
    let some_bit = one-le-pow k 2 in
    let whole : x ≡ x / 2 ^ k * 2 ^ k + x % 2 ^ k = ground arith in
    bit_and-bitwise x (2 ^ k - 1)
    ∙ (ap (λ y. and_digits y y (2 ^ k - 1)) whole
        ∙ and_low_field k (x / 2 ^ k * 2 ^ k + x % 2 ^ k) (x / 2 ^ k) (x % 2 ^ k) (ground arith)
            (omega arith))
