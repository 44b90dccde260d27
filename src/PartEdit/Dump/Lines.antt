-- ===== src/PartEdit/Dump/Lines.antt =====
-- The lines of DumpHex of PartEdit.c show the data.
use uefi_toolkit_pkg.Base.{
  ℕ, zero, suc, ◌+◌, ◌-◌, ◌*◌, ◌/◌, ◌%◌, ◌^◌, ◌≤◌, ◌<◌, ◌≡◌, refl, ap, ap₂, ◌∙◌, false, List, [],
  ◌∷◌, ◌++◌, Option, some, arith, Bytes, All, length, length-take, length-drop, get_or, take, drop,
  ltb, ◌==◌, if◌then◌else◌,
}
use uefi_toolkit_pkg.PartEdit.Dump.{hex_digits, Line, line_val, line_str, dump_loop, dump_hex}

-- The digit of a character.
unfoldable pub digit : ℕ → ℕ
digit c = if ltb c 58 then c - 48 else c - 55

-- The bytes that Val shows.
unfoldable pub shown : Bytes → Bytes
shown (a ∷ b ∷ c ∷ val) = (digit a * 16 + digit b) ∷ shown val
shown val = []

abbrev pub shown_lines : List Line → Bytes
shown_lines [] = []
shown_lines (l ∷ lines) = shown l.val ++ shown_lines lines

-- A line that Val[50] and Str[20] hold with their NULs.
abbrev pub Holds : Line → Type 0
Holds l = (length l.val + 1 ≤ 50) × (length l.str + 1 ≤ 20)

digit_lem : (n : ℕ) → n < 16 → digit (get_or hex_digits n 0) ≡ n
unfolding digit
digit_lem zero h = refl
digit_lem (suc zero) h = refl
digit_lem (suc (suc zero)) h = refl
digit_lem (suc (suc (suc zero))) h = refl
digit_lem (suc (suc (suc (suc zero)))) h = refl
digit_lem (suc (suc (suc (suc (suc zero))))) h = refl
digit_lem (suc (suc (suc (suc (suc (suc zero)))))) h = refl
digit_lem (suc (suc (suc (suc (suc (suc (suc zero))))))) h = refl
digit_lem (suc (suc (suc (suc (suc (suc (suc (suc zero)))))))) h = refl
digit_lem (suc (suc (suc (suc (suc (suc (suc (suc (suc zero))))))))) h = refl
digit_lem (suc (suc (suc (suc (suc (suc (suc (suc (suc (suc zero)))))))))) h = refl
digit_lem (suc (suc (suc (suc (suc (suc (suc (suc (suc (suc (suc zero))))))))))) h = refl
digit_lem (suc (suc (suc (suc (suc (suc (suc (suc (suc (suc (suc (suc zero)))))))))))) h = refl
digit_lem (suc (suc (suc (suc (suc (suc (suc (suc (suc (suc (suc (suc (suc zero))))))))))))) h =
    refl
digit_lem (suc (suc (suc (suc (suc (suc (suc (suc (suc (suc (suc (suc (suc (suc zero))))))))))))))
      h =
    refl
digit_lem
      (suc (suc (suc (suc (suc (suc (suc (suc (suc (suc (suc (suc (suc (suc (suc zero)))))))))))))))
      h =
    refl
digit_lem
      (suc
        (suc (suc (suc (suc (suc (suc (suc (suc (suc (suc (suc (suc (suc (suc (suc n))))))))))))))))
      h =
    absurd (omega arith)

shown-line_val :
    (i : ℕ) (bytes : Bytes) → All (λ b. b < 256) bytes → shown (line_val i bytes) ≡ bytes
unfolding shown line_val
shown-line_val i [] h = refl
shown-line_val i (b ∷ bytes) h =
    let high = digit_lem (b / 16) (omega (arith, h.0)) in
    let low = digit_lem (b % 16) (omega arith) in
    let joined : digit (get_or hex_digits (b / 16) 0) * 16 + digit (get_or hex_digits (b % 16) 0)
        ≡ b =
      omega (arith, high, low) in
    ap₂ (λ x xs. x ∷ xs) joined (shown-line_val (i + 1) bytes h.1)

length-line_val : (i : ℕ) (bytes : Bytes) → length (line_val i bytes) ≡ 3 * length bytes
unfolding line_val
length-line_val i [] = omega arith
length-line_val i (b ∷ bytes) = omega (arith, length-line_val (i + 1) bytes)

length-line_str : (bytes : Bytes) → length (line_str bytes) ≡ length bytes
unfolding line_str
length-line_str [] = refl
length-line_str (b ∷ bytes) = ap suc (length-line_str bytes)

module _ {ℓ} (P : ℕ → Type ℓ) where
  All-take : (n : ℕ) (xs : Bytes) → All P xs → All P (take n xs)
  All-take zero xs h = tt
  All-take (suc n) [] h = tt
  All-take (suc n) (x ∷ xs) h = (h.0, All-take n xs h.1)

  All-drop : (n : ℕ) (xs : Bytes) → All P xs → All P (drop n xs)
  All-drop zero xs h = h
  All-drop (suc n) [] h = tt
  All-drop (suc n) (x ∷ xs) h = All-drop n xs h.1

-- Lines that fit their arrays and show `bytes`.
pub record Shows (bytes : Bytes) (r : Option (List Line)) : Type 0 where
  pub lines : List Line
  pub returns : r ≡ some lines
  pub shows : shown_lines lines ≡ bytes
  pub fits : All Holds lines

dump_steps :
    (fuel offset size n : ℕ) (user_data : Bytes) (lines : List Line)
    → (size == 0) ≡ false
    → (if ltb size 16 then size else 16) ≡ n
    → ltb (length user_data) n ≡ false
    → dump_loop fuel ((offset + n) % 2 ^ 64) (size - n) (drop n user_data) ≡ some lines
    → dump_loop (suc fuel) offset size user_data
      ≡ some (
          record {
            offset = offset;
            val = line_val 0 (take n user_data);
            str = line_str (take n user_data);
          }
          ∷ lines)
unfolding dump_loop
dump_steps fuel offset size n user_data lines more count enough rest =
    rw (more, count, enough, rest) refl

take_nothing : (k : ℕ) → take {A = ℕ} k [] ≡ []
take_nothing zero = refl
take_nothing (suc k) = refl

take-split :
    (n size : ℕ) (xs : Bytes) → n ≤ size → take n xs ++ take (size - n) (drop n xs) ≡ take size xs
take-split zero size xs h = let e : size - 0 ≡ size = omega arith in ap (λ k. take k xs) e
take-split (suc n) zero xs h = absurd (omega arith)
take-split (suc n) (suc size) [] h = take_nothing (suc size - suc n)
take-split (suc n) (suc size) (x ∷ xs) h =
    let e : suc size - suc n ≡ size - n = omega arith in
    ap (λ k. x ∷ (take n xs ++ take k (drop n xs))) e
    ∙ ap (λ l. x ∷ l) (take-split n size xs (omega arith))

dump_loop-Shows :
    (fuel offset size : ℕ) (user_data : Bytes)
    → size < fuel
    → size ≤ length user_data
    → All (λ b. b < 256) user_data
    → Shows (take size user_data) (dump_loop fuel offset size user_data)
unfolding dump_loop
dump_loop-Shows zero offset size user_data enough inside small = absurd (omega arith)
dump_loop-Shows (suc fuel) offset zero user_data enough inside small = record {
  lines = [];
  returns = refl;
  shows = refl;
  fits = tt;
}
dump_loop-Shows (suc fuel) offset (suc size') user_data enough inside small =
    let size = suc size' in
    let n = if ltb size 16 then size else 16 in
    let bounds : (0 < n) × (n ≤ 16) × (n ≤ size) = ground arith in
    let bytes = take n user_data in
    let count : length bytes ≤ 16 = omega (arith, length-take n user_data, bounds) in
    let more : (size == 0) ≡ false = ground arith in
    let room : ltb (length user_data) n ≡ false = ground (arith, bounds, inside) in
    let rest =
      dump_loop-Shows fuel ((offset + n) % 2 ^ 64) (size - n) (drop n user_data)
        (omega (arith, bounds, enough)) (omega (arith, length-drop n user_data, inside))
        (All-drop (λ b. b < 256) n user_data small) in
    record {
      lines = record { offset = offset; val = line_val 0 bytes; str = line_str bytes } ∷ rest.lines;
      returns = dump_steps fuel offset size n user_data rest.lines more refl room rest.returns;
      shows =
          ap₂ (λ x y. x ++ y) (shown-line_val 0 bytes (All-take (λ b. b < 256) n user_data small))
            rest.shows
          ∙ take-split n size user_data bounds.2;
      fits = (
        (
          omega (arith, length-line_val 0 bytes, count),
          omega (arith, length-line_str bytes, count),
        ),
        rest.fits,
      );
    }

-- DumpHex of no more bytes than the data has reads nothing behind it and ends. The hexadecimal
-- digits of its lines show exactly those bytes in order, and no line is longer than the arrays
-- Val[50] and Str[20] with their NULs.
pub dump_hex-Shows :
    (offset size : ℕ) (user_data : Bytes)
    → size ≤ length user_data
    → All (λ b. b < 256) user_data
    → Shows (take size user_data) (dump_hex offset size user_data)
unfolding dump_hex
dump_hex-Shows offset size user_data inside small =
    dump_loop-Shows (suc size) offset size user_data (omega arith) inside small
