-- ===== src/RamDebug/Index.antt =====
-- RamDebugGetLatestIndex sets the region up once.
use uefi_toolkit_pkg.Base.{
  ℕ, zero, suc, ◌+◌, ◌-◌, ◌^◌, ◌≤◌, ◌<◌, ◌≡◌, refl, true, false, arith, length, length-set, set,
  ltb, ◌==◌, if◌then◌else◌, success, Bool-cases, inl, inr,
}
use uefi_toolkit_pkg.RamDebug.{
  Access, ran, Ram, Setup, header_id, default_value, buffer_size, write8, write_sig, write_latest,
  fill, on_filled, ram_debug_get_latest_index,
}

pub buffer_size_lem : (s : Setup) → 16 ≤ s.size → s.size < 2 ^ 32 → buffer_size s ≡ s.size - 16
unfolding buffer_size
buffer_size_lem s some_size narrow = omega arith

-- The region after the buffer was filled: the header and the sizes are as before.
record Filled (ram : Ram) (r : Access Ram) : Type 0 where
  result : Ram
  returns : r ≡ ran result
  sig : result.sig ≡ ram.sig
  index : result.latest_idx ≡ ram.latest_idx
  sized : length result.buffer ≡ length ram.buffer

fill-Filled :
    (s : Setup) (count index : ℕ) (ram : Ram)
    → index + count ≤ length ram.buffer
    → s.writable ≡ true
    → Filled ram (fill s count index ram)
unfolding fill write8
fill-Filled s zero index ram room w = record {
  result = ram;
  returns = refl;
  sig = refl;
  index = refl;
  sized = refl;
}
fill-Filled s (suc count) index ram room w =
    let inside : ltb index (length ram.buffer) ≡ true = ground arith in
    let size = length-set ram.buffer index default_value in
    let f =
      fill-Filled s count (index + 1) (record ram { buffer = set ram.buffer index default_value })
        (omega (arith, size)) w in
    rw (inside, w)
      (record {
        result = f.result;
        returns = f.returns;
        sig = f.sig;
        index = f.index;
        sized = omega (arith, f.sized, size);
      })

pub write_sig-eq :
    (s : Setup) (ram : Ram) → s.writable ≡ true → write_sig s ram ≡ record ram { sig = header_id }
unfolding write_sig
write_sig-eq s ram w = rw w refl

pub write_latest-eq :
    (s : Setup) (n : ℕ) (ram : Ram)
    → s.writable ≡ true
    → write_latest s n ram ≡ record ram { latest_idx = n }
unfolding write_latest
write_latest-eq s n ram w = rw w refl

pub first_call :
    (s : Setup) (ram result : Ram)
    → (s.base == 0) ≡ false
    → (s.size == 0) ≡ false
    → (ram.sig == header_id) ≡ false
    → s.writable ≡ true
    → fill s (buffer_size s) 0 (record { sig = header_id; latest_idx = 0; buffer = ram.buffer })
      ≡ ran result
    → ram_debug_get_latest_index s ram ≡ ran (success, result.latest_idx, result)
unfolding ram_debug_get_latest_index on_filled
first_call s ram result placed sized missing w filled =
    rw
      (
        placed,
        sized,
        missing,
        write_sig-eq s ram w,
        write_latest-eq s 0 (record ram { sig = header_id }) w,
        filled,
      )
      refl

-- What a call comes to, and the next one after it.
pub record Twice (s : Setup) (ram : Ram) : Type 0 where
  pub result : Ram
  pub latest : ℕ
  pub returns : ram_debug_get_latest_index s ram ≡ ran (success, latest, result)
  pub again : ram_debug_get_latest_index s result ≡ ran (success, latest, result)
  pub first : latest ≡ (if ram.sig == header_id then ram.latest_idx else 0)
  pub sized : length result.buffer ≡ length ram.buffer

-- A region whose PCDs are set and which can be written.
pub record Usable (s : Setup) (ram : Ram) : Type 0 where
  pub placed : (s.base == 0) ≡ false
  pub some_size : 16 ≤ s.size
  pub narrow : s.size < 2 ^ 32
  pub whole : length ram.buffer ≡ s.size - 16
  pub writable : s.writable ≡ true

-- On such a region RamDebugGetLatestIndex succeeds: it gives the index of the header if the
-- signature is there, and else sets the region up, inside its buffer, and gives 0. The next call
-- gives the same index and changes nothing.
pub ram_debug_get_latest_index-Twice : (s : Setup) (ram : Ram) → Usable s ram → Twice s ram
unfolding ram_debug_get_latest_index
ram_debug_get_latest_index-Twice s ram u =
    let sized : (s.size == 0) ≡ false = ground (arith, u.some_size) in
    elim (Bool-cases (ram.sig == header_id)) [
      | inl there ↦ record {
        result = ram;
        latest = ram.latest_idx;
        returns = rw (u.placed, sized, there) refl;
        again = rw (u.placed, sized, there) refl;
        first = rw there refl;
        sized = refl;
      }
      | inr missing ↦
          let start : Ram = record { sig = header_id; latest_idx = 0; buffer = ram.buffer } in
          let size : buffer_size s ≡ s.size - 16 = buffer_size_lem s u.some_size u.narrow in
          let f = fill-Filled s (buffer_size s) 0 start (omega (arith, size, u.whole)) u.writable in
          let marked : (f.result.sig == header_id) ≡ true = rw f.sig refl in
          record {
            result = f.result;
            latest = f.result.latest_idx;
            returns = first_call s ram f.result u.placed sized missing u.writable f.returns;
            again = rw (u.placed, sized, marked) refl;
            first = rw missing f.index;
            sized = f.sized;
          }
    ]
