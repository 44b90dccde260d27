-- ===== src/RamDebug/Log.antt =====
-- The log of RamDebugLib.c as a list of records, and how the clean-up chooses those to remove.
use uefi_toolkit_pkg.Base.{
  ℕ, zero, suc, ◌+◌, ◌-◌, ◌%◌, ◌^◌, ◌≤◌, ◌<◌, ◌≡◌, refl, sym, ap, ap₂, ◌∙◌, true, false, List, [],
  ◌∷◌, ◌++◌, append_assoc, arith, Bytes, All, Lacks, length, length-append, drop, drop-append,
  replicate, ltb, ◌==◌, if◌then◌else◌, Bool-cases, inl, inr,
}
use uefi_toolkit_pkg.RamDebug.{
  Access, ran, Ram, header_id, default_value, ram_debug_get_record_size, remove_records,
}
use uefi_toolkit_pkg.RamDebug.Loops.{region}

-- The bytes of some records, each with its NUL.
abbrev pub flat : List Bytes → Bytes
flat [] = []
flat (r ∷ rs) = r ++ 0 ∷ flat rs

pub flat-append : (rs qs : List Bytes) → flat (rs ++ qs) ≡ flat rs ++ flat qs
flat-append [] qs = refl
flat-append (r ∷ rs) qs = simp (append_assoc, flat-append rs qs) refl

-- The records left when the oldest ones go until there is room for `need` bytes.
unfoldable pub keep : ℕ → ℕ → List Bytes → List Bytes
keep need room [] = []
keep need room (r ∷ rs) = if ltb room need then keep need (room + (length r + 1)) rs else r ∷ rs

-- The region that holds the records, in a buffer of `n` bytes: default values behind them.
abbrev pub represent : ℕ → List Bytes → Ram
represent n rs =
    region header_id (length (flat rs)) (flat rs ++ replicate (n - length (flat rs)) default_value)

-- No record has a NUL in it.
abbrev pub Texts : List Bytes → Type 0
Texts = All (Lacks 0)

pub keep-Texts : (need room : ℕ) (rs : List Bytes) → Texts rs → Texts (keep need room rs)
unfolding keep
keep-Texts need room [] h = h
keep-Texts need room (r ∷ rs) h = elim (Bool-cases (ltb room need)) [
  | inl full ↦ rw full (keep-Texts need (room + (length r + 1)) rs h.1)
  | inr fits ↦ rw fits h
]

-- With room for `need` bytes nothing is removed.
pub keep_all : (need room : ℕ) (rs : List Bytes) → need ≤ room → keep need room rs ≡ rs
unfolding keep
keep_all need room [] h = refl
keep_all need room (r ∷ rs) h = let fits : ltb room need ≡ false = ground arith in rw fits refl

-- Afterwards there is room.
pub length-keep :
    (need room : ℕ) (rs : List Bytes)
    → need ≤ room + length (flat rs)
    → need + length (flat (keep need room rs)) ≤ room + length (flat rs)
unfolding keep
length-keep need room [] h = omega arith
length-keep need room (r ∷ rs) h =
    let size = length-append r (0 ∷ flat rs) in
    elim (Bool-cases (ltb room need)) [
      | inl full ↦
          rw full
            (omega (arith, size, length-keep need (room + (length r + 1)) rs (omega (arith, size))))
      | inr fits ↦ rw fits (ground (arith, size, fits))
    ]

pub record_size_lem :
    (r rest : Bytes)
    → Lacks 0 r
    → length r + 1 < 2 ^ 32
    → ram_debug_get_record_size (r ++ 0 ∷ rest) ≡ ran (length r + 1)
unfolding ram_debug_get_record_size
record_size_lem [] rest h small = refl
record_size_lem (c ∷ r) rest h small =
    let other : (c == 0) ≡ false = ground (arith, h.0) in
    let wrap : (length r + 1 + 1) % 2 ^ 32 ≡ suc (length r) + 1 = omega arith in
    rw (other, record_size_lem r rest h.1 (omega arith)) (ap ran wrap)

keep_step :
    (need room : ℕ) (r : Bytes) (rs : List Bytes)
    → ltb room need ≡ true
    → keep need room (r ∷ rs) ≡ keep need (room + (length r + 1)) rs
unfolding keep
keep_step need room r rs full = rw full refl

pub remove_step :
    (fuel need offset room n : ℕ) (ram : Ram)
    → ltb room need ≡ true
    → ram_debug_get_record_size (drop offset ram.buffer) ≡ ran n
    → (offset + n) % 2 ^ 32 ≡ offset + n
    → (room + n) % 2 ^ 32 ≡ room + n
    → remove_records (suc fuel) ram need offset room
      ≡ remove_records fuel ram need (offset + n) (room + n)
unfolding remove_records
remove_step fuel need offset room n ram full size wrap_offset wrap_room =
    rw (full, size) (ap₂ (remove_records fuel ram need) wrap_offset wrap_room)

-- What the loop that counts the records comes to: `gap` are the bytes passed.
pub record Removed (need room : ℕ) (done : Bytes) (rs : List Bytes) (r : Access ℕ) : Type 0 where
  pub gap : Bytes
  pub returns : r ≡ ran (length gap)
  pub whole : done ++ flat rs ≡ gap ++ flat (keep need room rs)

pub remove_records-Removed :
    (rs : List Bytes) (done rest buffer : Bytes) (sig latest fuel need offset room : ℕ)
    → Texts rs
    → offset ≡ length done
    → buffer ≡ done ++ (flat rs ++ rest)
    → need ≤ room + length (flat rs)
    → 0 < fuel
    → need < fuel + room
    → length done + length (flat rs) < 2 ^ 32
    → room + length (flat rs) < 2 ^ 32
    → Removed need room done rs (remove_records fuel (region sig latest buffer) need offset room)
unfolding remove_records keep
remove_records-Removed rs done rest buffer sig latest zero need offset room texts at whole enough
      some_fuel fuel_left low_done low_room =
    absurd (omega arith)
remove_records-Removed [] done rest buffer sig latest (suc fuel) need offset room texts at whole
      enough some_fuel fuel_left low_done low_room =
    let fits : ltb room need ≡ false = ground arith in
    record { gap = done; returns = rw fits (ap ran at); whole = refl }
remove_records-Removed (r ∷ rs) done rest buffer sig latest (suc fuel) need offset room texts at
      whole enough some_fuel fuel_left low_done low_room =
    let size = length-append r (0 ∷ flat rs) in
    elim (Bool-cases (ltb room need)) [
      | inr fits ↦ record {
        gap = done;
        returns = rw fits (ap ran at);
        whole =
            ap (λ qs. done ++ flat qs) (sym (keep_all need room (r ∷ rs) (ground (arith, fits))));
      }
      | inl full ↦
          let next = length r + 1 in
          let at_record : drop offset buffer ≡ r ++ 0 ∷ (flat rs ++ rest) =
            ap (λ o. drop o buffer) at
            ∙ (ap (drop (length done)) whole
                ∙ (drop-append done ((r ++ 0 ∷ flat rs) ++ rest)
                    ∙ append_assoc r (0 ∷ flat rs) rest)) in
          let wrap_offset : (offset + next) % 2 ^ 32 ≡ offset + next = omega (arith, at, size) in
          let wrap_room : (room + next) % 2 ^ 32 ≡ room + next = omega (arith, size) in
          let done' = done ++ (r ++ 0 ∷ []) in
          let joined : done' ++ flat rs ≡ done ++ (r ++ 0 ∷ flat rs) = simp (append_assoc) refl in
          let done_size = length-append done (r ++ 0 ∷ []) in
          let r_size = length-append r (0 ∷ []) in
          let low : room < need = ground (arith, full) in
          let h =
            remove_records-Removed rs done' rest buffer sig latest fuel need (offset + next)
              (room + next) texts.1 (omega (arith, at, done_size, r_size))
              (whole ∙ simp (append_assoc) refl) (omega (arith, size)) (omega (arith, low))
              (omega arith) (omega (arith, size, done_size, r_size)) (omega (arith, size)) in
          let sized =
            ap ram_debug_get_record_size at_record
            ∙ record_size_lem r (flat rs ++ rest) texts.0 (omega (arith, size)) in
          record {
            gap = h.gap;
            returns =
                remove_step fuel need offset room next (region sig latest buffer) full sized
                  wrap_offset wrap_room
                ∙ h.returns;
            whole =
                sym joined
                ∙ (h.whole ∙ ap (λ qs. h.gap ++ flat qs) (sym (keep_step need room r rs full)));
          }
    ]
