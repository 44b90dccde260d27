-- ===== src/RamDebug/Refine.antt =====
-- RamDebugPrint of RamDebugLib.c refines a list of records.
use uefi_toolkit_pkg.Base.{
  ℕ, ◌+◌, ◌-◌, ◌%◌, ◌^◌, ◌≤◌, ◌<◌, ◌≡◌, refl, sym, ap, ap₂, ◌∙◌, true, false, List, [], ◌∷◌, ◌++◌,
  arith, Bytes, length, ltb, ◌==◌, Bool-cases, inl, inr, success,
}
use uefi_toolkit_pkg.RamDebug.{
  ran, Ram, Setup, buffer_size, ram_debug_get_latest_index, ram_debug_clean_up, save_record,
  on_index, ram_debug_print,
}
use uefi_toolkit_pkg.RamDebug.Index.{buffer_size_lem}
use uefi_toolkit_pkg.RamDebug.Log.{flat, keep, keep_all, length-keep, represent, Texts}
use uefi_toolkit_pkg.RamDebug.Print.{
  Active, capacity, logged, cleaned, clean_up_lem, save_record_lem,
}

pub index_represent :
    (s : Setup) (n : ℕ) (rs : List Bytes)
    → Active s
    → ram_debug_get_latest_index s (represent n rs)
      ≡ ran (success, length (flat rs), represent n rs)
unfolding ram_debug_get_latest_index
index_represent s n rs a =
    let sized : (s.size == 0) ≡ false = ground (arith, a.some_size) in rw (a.placed, sized) refl

pub on_index_cleaned :
    (s : Setup) (bytes : Bytes) (temp latest left : ℕ) (ram cleared : Ram)
    → ltb (buffer_size s) ((latest + temp) % 2 ^ 32) ≡ true
    → ram_debug_clean_up s temp latest ram ≡ ran (left, cleared)
    → on_index s bytes temp (ran (success, latest, ram)) ≡ save_record s bytes temp left cleared
unfolding on_index
on_index_cleaned s bytes temp latest left ram cleared over done = rw (over, done) refl

on_index_room :
    (s : Setup) (bytes : Bytes) (temp latest : ℕ) (ram : Ram)
    → ltb (buffer_size s) ((latest + temp) % 2 ^ 32) ≡ false
    → on_index s bytes temp (ran (success, latest, ram)) ≡ save_record s bytes temp latest ram
unfolding on_index
on_index_room s bytes temp latest ram room = rw room refl

pub print_steps :
    (s : Setup) (bytes : Bytes) (size temp latest : ℕ) (ram ram' : Ram)
    → Active s
    → ltb (buffer_size s) size ≡ false
    → (size + 1) % 2 ^ 32 ≡ temp
    → ram_debug_get_latest_index s ram ≡ ran (success, latest, ram')
    → ram_debug_print s bytes size ram ≡ on_index s bytes temp (ran (success, latest, ram'))
unfolding ram_debug_print
print_steps s bytes size temp latest ram ram' a fits total index =
    rw (a.enabled, fits, total, index) refl

pub on_index-represent :
    (s : Setup) (rs : List Bytes) (m : Bytes)
    → Active s
    → Texts rs
    → length (flat rs) ≤ capacity s
    → length m < capacity s
    → on_index s
        (m ++ 0 ∷ [])
        (length m + 1)
        (ran (success, length (flat rs), represent (capacity s) rs))
      ≡ ran (represent (capacity s) (logged (capacity s) rs m))
unfolding cleaned
on_index-represent s rs m a texts inside fits =
    let n = capacity s in
    let used = length (flat rs) in
    let need = length m + 1 in
    let size : buffer_size s ≡ n = buffer_size_lem s a.some_size (omega (arith, a.narrow)) in
    let small : n < 2 ^ 31 = omega (arith, a.narrow) in
    let sum : (used + need) % 2 ^ 32 ≡ used + need = omega arith in
    let ks = keep need (n - used) rs in
    elim (Bool-cases (ltb n (used + need))) [
      | inl over ↦
          let over' : ltb (buffer_size s) ((used + need) % 2 ^ 32) ≡ true =
            ap₂ ltb size sum ∙ over in
          let room = length-keep need (n - used) rs (omega arith) in
          on_index_cleaned s (m ++ 0 ∷ []) need used (length (flat ks)) (represent n rs)
            (cleaned s n a.writable size small ks used) over'
            (clean_up_lem s n a.writable size small rs need texts inside (omega arith))
          ∙ save_record_lem s n a.writable size small ks m used (omega (arith, room))
      | inr room ↦
          let room' : ltb (buffer_size s) ((used + need) % 2 ^ 32) ≡ false =
            ap₂ ltb size sum ∙ room in
          let fits : used + need ≤ n = ground (arith, room) in
          let all : keep need (n - used) rs ≡ rs =
            keep_all need (n - used) rs (omega (arith, fits)) in
          on_index_room s (m ++ 0 ∷ []) need used (represent n rs) room'
          ∙ save_record_lem s n a.writable size small rs m used fits
          ∙ ap (λ k. ran (represent n (k ++ m ∷ []))) (sym all)
    ]

-- On a region that holds records without a NUL in them, in a set-up in which the log works,
-- RamDebugPrint of a message that fits with its NUL never leaves the buffer: it removes the oldest
-- records until there is room, one by one and no more than needed, and adds the message as the
-- newest one, behind which the buffer has its default value.
pub ram_debug_print-represent :
    (s : Setup) (rs : List Bytes) (m : Bytes)
    → Active s
    → Texts rs
    → length (flat rs) ≤ capacity s
    → length m < capacity s
    → ram_debug_print s (m ++ 0 ∷ []) (length m) (represent (capacity s) rs)
      ≡ ran (represent (capacity s) (logged (capacity s) rs m))
ram_debug_print-represent s rs m a texts inside fits =
    let size : buffer_size s ≡ capacity s =
      buffer_size_lem s a.some_size (omega (arith, a.narrow)) in
    let pass : ltb (buffer_size s) (length m) ≡ false = ground (arith, size) in
    let temp : (length m + 1) % 2 ^ 32 ≡ length m + 1 = omega (arith, a.narrow) in
    print_steps s (m ++ 0 ∷ []) (length m) (length m + 1) (length (flat rs))
      (represent (capacity s) rs) (represent (capacity s) rs) a pass temp
      (index_represent s (capacity s) rs a)
    ∙ on_index-represent s rs m a texts inside fits
