-- ===== src/RamDebug/Newest.antt =====
-- What a sequence of calls of RamDebugPrint of RamDebugLib.c leaves in the log.
use uefi_toolkit_pkg.Base.{
  ℕ, ◌+◌, ◌-◌, ◌%◌, ◌^◌, ◌≤◌, ◌<◌, ◌≡◌, refl, sym, ap, ◌∙◌, true, false, List, [], ◌∷◌, ◌++◌,
  append_assoc, append-nil, arith, Bytes, All, All-append, Lacks, length, length-append, replicate,
  ltb, leb, ◌==◌, if◌then◌else◌, Bool-cases, inl, inr,
}
use uefi_toolkit_pkg.RamDebug.{
  then_run, Access, ran, Ram, Setup, header_id, default_value, buffer_size, fill, ram_debug_print,
}
use uefi_toolkit_pkg.RamDebug.Index.{buffer_size_lem, first_call}
use uefi_toolkit_pkg.RamDebug.Loops.{region, fill_lem}
use uefi_toolkit_pkg.RamDebug.Log.{flat, flat-append, keep, represent, Texts}
use uefi_toolkit_pkg.RamDebug.Print.{Active, capacity, logged}
use uefi_toolkit_pkg.RamDebug.Refine.{print_steps, on_index-represent, ram_debug_print-represent}

-- The most of the last records that `n` bytes hold.
unfoldable pub newest : ℕ → List Bytes → List Bytes
newest n [] = []
newest n (r ∷ rs) = if leb (length (flat (r ∷ rs))) n then r ∷ rs else newest n rs

pub length-newest : (n : ℕ) (rs : List Bytes) → length (flat (newest n rs)) ≤ n
unfolding newest
length-newest n [] = omega arith
length-newest n (r ∷ rs) = elim (Bool-cases (leb (length (flat (r ∷ rs))) n)) [
  | inl fits ↦ rw fits (ground (arith, fits))
  | inr over ↦ rw over (length-newest n rs)
]

newest-Texts : (n : ℕ) (rs : List Bytes) → Texts rs → Texts (newest n rs)
unfolding newest
newest-Texts n [] h = h
newest-Texts n (r ∷ rs) h = elim (Bool-cases (leb (length (flat (r ∷ rs))) n)) [
  | inl fits ↦ rw fits h
  | inr over ↦ rw over (newest-Texts n rs h.1)
]

-- Removing the oldest until there is room leaves the newest that the rest of the buffer holds.
keep-newest :
    (n need room : ℕ) (rs : List Bytes)
    → room + length (flat rs) ≡ n
    → need ≤ n
    → keep need room rs ≡ newest (n - need) rs
unfolding keep newest
keep-newest n need room [] whole fits = refl
keep-newest n need room (r ∷ rs) whole fits =
    let size = length-append r (0 ∷ flat rs) in
    elim (Bool-cases (ltb room need)) [
      | inl full ↦
          let over : leb (length (flat (r ∷ rs))) (n - need) ≡ false =
            ground (arith, full, whole) in
          rw (full, over)
            (keep-newest n need (room + (length r + 1)) rs (omega (arith, whole, size)) fits)
      | inr free ↦
          let inside : leb (length (flat (r ∷ rs))) (n - need) ≡ true =
            ground (arith, free, whole) in
          rw (free, inside) refl
    ]

newest-newest : (k n : ℕ) (rs : List Bytes) → k ≤ n → newest k (newest n rs) ≡ newest k rs
unfolding newest
newest-newest k n [] h = refl
newest-newest k n (r ∷ rs) h =
    let rest = newest-newest k n rs h in
    elim (Bool-cases (leb (length (flat (r ∷ rs))) n)) [
      | inl fits ↦ rw fits refl
      | inr over ↦
          let over' : leb (length (flat (r ∷ rs))) k ≡ false = ground (arith, over) in
          rw (over, over') rest
    ]

newest-append :
    (n : ℕ) (rs : List Bytes) (m : Bytes)
    → length m + 1 ≤ n
    → newest n (rs ++ m ∷ []) ≡ newest (n - (length m + 1)) rs ++ m ∷ []
unfolding newest
newest-append n [] m fits =
    let size = length-append m (0 ∷ []) in
    let inside : leb (length (m ++ 0 ∷ [])) n ≡ true = ground (arith, size) in rw inside refl
newest-append n (r ∷ rs) m fits =
    let size = length-append m (0 ∷ []) in
    let parts = length-append (flat (r ∷ rs)) (flat (m ∷ [])) in
    let total : length (flat (r ∷ rs ++ m ∷ [])) ≡ length (flat (r ∷ rs)) + (length m + 1) =
      omega (arith, ap length (flat-append (r ∷ rs) (m ∷ [])), parts, size) in
    elim (Bool-cases (leb (length (flat (r ∷ rs))) (n - (length m + 1)))) [
      | inl inside ↦
          let inside' : leb (length (flat (r ∷ rs ++ m ∷ []))) n ≡ true =
            ground (arith, inside, total) in
          rw (inside, inside') refl
      | inr over ↦
          let over' : leb (length (flat (r ∷ rs ++ m ∷ []))) n ≡ false =
            ground (arith, over, total) in
          rw (over, over') (newest-append n rs m fits)
    ]

logged-newest :
    (n : ℕ) (rs : List Bytes) (m : Bytes)
    → length m + 1 ≤ n
    → logged n (newest n rs) m ≡ newest n (rs ++ m ∷ [])
logged-newest n rs m fits =
    ap (λ k. k ++ m ∷ [])
      (keep-newest n (length m + 1) (n - length (flat (newest n rs))) (newest n rs)
          (omega (arith, length-newest n rs)) fits
        ∙ newest-newest (n - (length m + 1)) n rs (omega arith))
    ∙ sym (newest-append n rs m fits)

-- RamDebugPrint of each message.
abbrev pub ram_debug_prints : Setup → List Bytes → Ram → Access Ram
ram_debug_prints s [] ram = ran ram
ram_debug_prints s (m ∷ ms) ram =
    then_run (ram_debug_print s (m ++ 0 ∷ []) (length m) ram) (ram_debug_prints s ms)

-- A message without a NUL that fits with its NUL.
abbrev pub Fits : ℕ → Bytes → Type 0
Fits n m = Lacks 0 m × length m < n

prints-newest :
    (s : Setup) (ms rs : List Bytes)
    → Active s
    → Texts rs
    → All (Fits (capacity s)) ms
    → ram_debug_prints s ms (represent (capacity s) (newest (capacity s) rs))
      ≡ ran (represent (capacity s) (newest (capacity s) (rs ++ ms)))
prints-newest s [] rs a texts fits =
    ap (λ k. ran (represent (capacity s) (newest (capacity s) k))) (sym (append-nil rs))
prints-newest s (m ∷ ms) rs a texts fits =
    let n = capacity s in
    let step : ram_debug_print s (m ++ 0 ∷ []) (length m) (represent n (newest n rs))
        ≡ ran (represent n (newest n (rs ++ m ∷ []))) =
      ram_debug_print-represent s (newest n rs) m a (newest-Texts n rs texts) (length-newest n rs)
        fits.0.1
      ∙ ap (λ k. ran (represent n k)) (logged-newest n rs m (omega (arith, fits.0.1))) in
    ap (λ r. then_run r (ram_debug_prints s ms)) step
    ∙ prints-newest s ms (rs ++ m ∷ []) a (All-append (Lacks 0) rs (m ∷ []) texts (fits.0.0, tt))
        fits.1
    ∙ ap (λ k. ran (represent n (newest n k))) (append_assoc rs (m ∷ []) ms)

first_print :
    (s : Setup) (m : Bytes) (ram : Ram)
    → Active s
    → length ram.buffer ≡ capacity s
    → (ram.sig == header_id) ≡ false
    → Fits (capacity s) m
    → ram_debug_print s (m ++ 0 ∷ []) (length m) ram
      ≡ ran (represent (capacity s) (newest (capacity s) (m ∷ [])))
unfolding newest
first_print s m ram a whole missing fits =
    let n = capacity s in
    let size : buffer_size s ≡ n = buffer_size_lem s a.some_size (omega (arith, a.narrow)) in
    let sized : (s.size == 0) ≡ false = ground (arith, a.some_size) in
    let pass : ltb (buffer_size s) (length m) ≡ false = ground (arith, size, fits.1) in
    let temp : (length m + 1) % 2 ^ 32 ≡ length m + 1 = omega (arith, a.narrow, fits.1) in
    let filled : fill s (buffer_size s) 0 (region header_id 0 ram.buffer) ≡ ran (represent n []) =
      ap (λ k. fill s k 0 (region header_id 0 ram.buffer)) (size ∙ sym whole)
      ∙ fill_lem s a.writable header_id 0 ram.buffer [] ram.buffer 0 refl refl
      ∙ ap (λ k. ran (region header_id 0 (replicate k default_value))) (whole ∙ (omega arith)) in
    print_steps s (m ++ 0 ∷ []) (length m) (length m + 1) 0 ram (represent n []) a pass temp
      (first_call s ram (represent n []) a.placed sized missing a.writable filled)
    ∙ on_index-represent s [] m a tt (omega arith) fits.1
    ∙ ap (λ k. ran (represent n k)) (logged-newest n [] m (omega (arith, fits.1)))

-- After RamDebugPrint of some messages, each without a NUL and with room for itself, on a region
-- of any content but the signature, in a set-up in which the log works, the log has the most of the
-- last messages that its buffer holds, in their order, and no access was outside the buffer.
pub ram_debug_prints-newest :
    (s : Setup) (m : Bytes) (ms : List Bytes) (ram : Ram)
    → Active s
    → length ram.buffer ≡ capacity s
    → (ram.sig == header_id) ≡ false
    → All (Fits (capacity s)) (m ∷ ms)
    → ram_debug_prints s (m ∷ ms) ram ≡ ran (represent (capacity s) (newest (capacity s) (m ∷ ms)))
ram_debug_prints-newest s m ms ram a whole missing fits =
    ap (λ r. then_run r (ram_debug_prints s ms)) (first_print s m ram a whole missing fits.0)
    ∙ prints-newest s ms (m ∷ []) a (fits.0.0, tt) fits.1
