-- ===== src/RamDebug/Overrun.antt =====
-- RamDebugPrint of RamDebugLib.c with as many bytes as the buffer has.
use uefi_toolkit_pkg.Base.{
  ℕ, zero, suc, ◌+◌, ◌-◌, ◌%◌, ◌^◌, ◌≤◌, ◌<◌, ◌≡◌, refl, ap, ap₂, ◌∙◌, true, false, List, [], ◌∷◌,
  ◌++◌, append_assoc, arith, Bytes, length, length-append, drop, drop-append, replicate, ltb,
  success,
}
use uefi_toolkit_pkg.RamDebug.{
  outside, ran, Ram, Setup, header_id, default_value, buffer_size, ram_debug_get_record_size,
  remove_records, ram_debug_clean_up, on_index, ram_debug_print,
}
use uefi_toolkit_pkg.RamDebug.Index.{buffer_size_lem}
use uefi_toolkit_pkg.RamDebug.Loops.{region}
use uefi_toolkit_pkg.RamDebug.Log.{flat, represent, Texts, record_size_lem, remove_step}
use uefi_toolkit_pkg.RamDebug.Print.{Active, capacity}
use uefi_toolkit_pkg.RamDebug.Refine.{print_steps, index_represent}

-- There is no NUL behind the last record.
no_record : (k : ℕ) → ram_debug_get_record_size (replicate k default_value) ≡ outside
unfolding ram_debug_get_record_size
no_record zero = refl
no_record (suc k) = rw (no_record k) refl

remove_stop :
    (fuel need offset room : ℕ) (ram : Ram)
    → ltb room need ≡ true
    → ram_debug_get_record_size (drop offset ram.buffer) ≡ outside
    → remove_records (suc fuel) ram need offset room ≡ outside
unfolding remove_records
remove_stop fuel need offset room ram full off = rw (full, off) refl

-- One byte more than the buffer has: all records are passed, and then the default values.
remove_outside :
    (rs : List Bytes) (done buffer : Bytes) (k sig latest fuel need offset room : ℕ)
    → Texts rs
    → offset ≡ length done
    → buffer ≡ done ++ (flat rs ++ replicate k default_value)
    → room + length (flat rs) < need
    → need < fuel + room
    → length done + length (flat rs) < 2 ^ 32
    → room + length (flat rs) < 2 ^ 32
    → remove_records fuel (region sig latest buffer) need offset room ≡ outside
remove_outside rs done buffer k sig latest zero need offset room texts at whole over fuel_left
      low_done low_room =
    absurd (omega arith)
remove_outside [] done buffer k sig latest (suc fuel) need offset room texts at whole over fuel_left
      low_done low_room =
    let full : ltb room need ≡ true = ground arith in
    let at_end : drop offset buffer ≡ replicate k default_value =
      ap₂ drop at whole ∙ drop-append done (replicate k default_value) in
    remove_stop fuel need offset room (region sig latest buffer) full
      (ap ram_debug_get_record_size at_end ∙ no_record k)
remove_outside (r ∷ rs) done buffer k sig latest (suc fuel) need offset room texts at whole over
      fuel_left low_done low_room =
    let rest = replicate k default_value in
    let next = length r + 1 in
    let size = length-append r (0 ∷ flat rs) in
    let full : ltb room need ≡ true = ground (arith, size) in
    let at_record : drop offset buffer ≡ r ++ 0 ∷ (flat rs ++ rest) =
      ap₂ drop at whole
      ∙ (drop-append done ((r ++ 0 ∷ flat rs) ++ rest) ∙ append_assoc r (0 ∷ flat rs) rest) in
    let sized =
      ap ram_debug_get_record_size at_record
      ∙ record_size_lem r (flat rs ++ rest) texts.0 (omega (arith, size)) in
    let done_size = length-append done (r ++ 0 ∷ []) in
    let r_size = length-append r (0 ∷ []) in
    remove_step fuel need offset room next (region sig latest buffer) full sized
      (omega (arith, at, size)) (omega (arith, size))
    ∙ remove_outside rs (done ++ (r ++ 0 ∷ [])) buffer k sig latest fuel need (offset + next)
        (room + next) texts.1 (omega (arith, at, done_size, r_size))
        (whole ∙ simp (append_assoc) refl) (omega (arith, size)) (omega arith)
        (omega (arith, size, done_size, r_size)) (omega (arith, size))

clean_up_outside :
    (s : Setup) (need latest room : ℕ) (ram : Ram)
    → (buffer_size s + 2 ^ 64 - latest) % 2 ^ 32 ≡ room
    → remove_records (suc need) ram need 0 room ≡ outside
    → ram_debug_clean_up s need latest ram ≡ outside
unfolding ram_debug_clean_up
clean_up_outside s need latest room ram free off = rw (free, off) refl

on_index-outside :
    (s : Setup) (bytes : Bytes) (temp latest : ℕ) (ram : Ram)
    → ltb (buffer_size s) ((latest + temp) % 2 ^ 32) ≡ true
    → ram_debug_clean_up s temp latest ram ≡ outside
    → on_index s bytes temp (ran (success, latest, ram)) ≡ outside
unfolding on_index
on_index-outside s bytes temp latest ram over off = rw (over, off) refl

-- A message of exactly DEBUG_PRINT_BUFFER_SIZE bytes passes the guard of RamDebugPrint, but on a
-- region that holds records without a NUL in them, in a set-up in which the log works, the call
-- accesses memory outside the print buffer: there is no room to make for the NUL. (The run ends at that
-- access, with fuel left.)
pub ram_debug_print-overrun :
    (s : Setup) (rs : List Bytes) (m : Bytes)
    → Active s
    → Texts rs
    → length (flat rs) ≤ capacity s
    → length m ≡ capacity s
    → ram_debug_print s (m ++ 0 ∷ []) (length m) (represent (capacity s) rs) ≡ outside
ram_debug_print-overrun s rs m a texts inside whole =
    let n = capacity s in
    let used = length (flat rs) in
    let need = length m + 1 in
    let size : buffer_size s ≡ n = buffer_size_lem s a.some_size (omega (arith, a.narrow)) in
    let pass : ltb (buffer_size s) (length m) ≡ false = ground (arith, size) in
    let temp : need % 2 ^ 32 ≡ need = omega (arith, a.narrow) in
    let sum : (used + need) % 2 ^ 32 ≡ used + need = omega (arith, a.narrow) in
    let over : ltb (buffer_size s) ((used + need) % 2 ^ 32) ≡ true =
      ap₂ ltb size sum ∙ (ground (arith, whole)) in
    let free : (buffer_size s + 2 ^ 64 - used) % 2 ^ 32 ≡ n - used =
      omega (arith, size, a.narrow) in
    let off =
      remove_outside rs [] (flat rs ++ replicate (n - used) default_value) (n - used) header_id used
        (suc need) need 0 (n - used) texts refl refl (omega (arith, whole)) (omega arith)
        (omega (arith, a.narrow)) (omega (arith, a.narrow)) in
    print_steps s (m ++ 0 ∷ []) (length m) need used (represent n rs) (represent n rs) a pass temp
      (index_represent s n rs a)
    ∙ on_index-outside s (m ++ 0 ∷ []) need used (represent n rs) over
        (clean_up_outside s need used (n - used) (represent n rs) free off)
