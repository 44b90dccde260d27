-- ===== src/PartEdit/Gpt/Erased.antt =====
-- EraseGptTable of PartEdit.c clears both tables and nothing else.
use native.Mathlib.Nat.{add-mul, div-add-mod'}
use uefi_toolkit_pkg.Base.{
  ℕ, zero, ◌+◌, ◌-◌, ◌*◌, ◌/◌, ◌%◌, ◌^◌, ◌≤◌, ◌<◌, ◌≡◌, refl, ap, ◌∙◌, Bool, true, [], ◌++◌,
  append_assoc, append-nil, some, arith, Bytes, length, length-append, length-replicate, replicate,
  Status, success,
}
use uefi_toolkit_pkg.PartEdit.{Machine}
use uefi_toolkit_pkg.PartEdit.Gpt.{
  entries_size, primary_size, secondary_offset, secondary_size, erase_secondary, erase_primary,
  erase_gpt_table,
}

-- A disk of whole blocks, of which the entries take some, and whose DiskIo replaces bytes inside it.
pub record Device {D : Type 0} (m : Machine D) (handle : ℕ) (contents : D → Bytes) : Type 0 where
  pub some_block : 0 < m.block_size handle
  pub narrow : m.block_size handle < 2 ^ 31
  pub whole_blocks : entries_size % m.block_size handle ≡ 0
  pub enough : entries_size / m.block_size handle ≤ m.last_block handle
  pub sized : (d : D) → length (contents d) ≡ (m.last_block handle + 1) * m.block_size handle
  pub writes :
      (d : D) (done old rest bytes : Bytes)
      → contents d ≡ done ++ (old ++ rest)
      → length bytes ≡ length old
      → ((m.write_disk handle (length done) bytes d).0 ≡ success)
        × (contents (m.write_disk handle (length done) bytes d).1 ≡ done ++ (bytes ++ rest))
  pub flushes : (d : D) → contents (m.flush_blocks handle d) ≡ contents d

-- Success, and what the disk has.
pub record Cleared {D : Type 0} (contents : D → Bytes) (whole : Bytes) (r : Status × D)
    : Type 0 where
  pub disk : D
  pub returns : r ≡ (success, disk)
  pub holds : contents disk ≡ whole

module _ {D : Type 0} (m : Machine D) (handle : ℕ) (can : ℕ → Bool)
    (room : (n : ℕ) → can n ≡ true) where
  primary_steps :
      (n : ℕ) (d : D)
      → primary_size m handle ≡ n
      → (m.write_disk handle 0 (replicate n 0) d).0 ≡ success
      → erase_gpt_table m can (some handle) d
        ≡ erase_secondary m can handle (m.write_disk handle 0 (replicate n 0) d).1
  unfolding erase_gpt_table erase_primary
  primary_steps n d size fine = rw (size, room n, fine) refl

  secondary_steps :
      (n offset : ℕ) (d : D)
      → secondary_size m handle ≡ n
      → secondary_offset m handle ≡ offset
      → (m.write_disk handle offset (replicate n 0) d).0 ≡ success
      → erase_secondary m can handle d
        ≡ (success, m.flush_blocks handle (m.write_disk handle offset (replicate n 0) d).1)
  unfolding erase_secondary
  secondary_steps n offset d size place fine = rw (size, place, room n, fine) refl

  module _ (contents : D → Bytes) (v : Device m handle contents) where
    secondary_place :
        (used : ℕ)
        → used + (m.block_size handle + entries_size)
          ≡ (m.last_block handle + 1) * m.block_size handle
        → used < 2 ^ 63
        → m.last_block handle < 2 ^ 63
        → secondary_offset m handle ≡ used
    unfolding secondary_offset
    secondary_place used whole small few =
        let b = m.block_size handle in
        let k = entries_size / b in
        let j = m.last_block handle - k in
        let product : k * b ≡ entries_size =
          omega (arith, div-add-mod' entries_size b, v.whole_blocks) in
        let last : m.last_block handle + 1 ≡ j + (k + 1) = omega (arith, v.enough) in
        let split : (j + (k + 1)) * b ≡ j * b + (k * b + b) =
          omega (arith, add-mul j (k + 1) b, add-mul k 1 b) in
        let start : j * b ≡ used = omega (arith, whole, ap (λ x. x * b) last, split, product) in
        let wrap : (m.last_block handle + 2 ^ 64 - k) % 2 ^ 64 ≡ j = omega (arith, v.enough, few) in
        ap (λ x. x * b % 2 ^ 64) wrap ∙ omega (arith, start, small)

    -- On a disk that has room for both tables, of whole blocks of less than 2 GiB that divide 16 KiB and
    -- with less than 2 ^ 63 bytes, whose DiskIo replaces bytes inside it, and with room in the pool,
    -- EraseGptTable succeeds: the first two blocks and the 16 KiB of entries behind them are then
    -- zero, and so are the 16 KiB before the last block and that block; all bytes between are as they
    -- were.
    pub erase_gpt_table-Cleared :
        (d : D) (head middle tail : Bytes)
        → contents d ≡ head ++ (middle ++ tail)
        → length head ≡ 2 * m.block_size handle + entries_size
        → length tail ≡ m.block_size handle + entries_size
        → length (contents d) < 2 ^ 63
        → m.last_block handle < 2 ^ 63
        → Cleared contents
            (replicate (length head) 0 ++ (middle ++ replicate (length tail) 0))
            (erase_gpt_table m can (some handle) d)
    unfolding primary_size secondary_size
    erase_gpt_table-Cleared d head middle tail whole first last small few =
        let front : Bytes = replicate (length head) 0 in
        let zeros : Bytes = replicate (length tail) 0 in
        let front_size : length front ≡ length head = length-replicate (length head) zero in
        let zeros_size : length zeros ≡ length tail = length-replicate (length tail) zero in
        let total = ap length whole ∙ length-append head (middle ++ tail) in
        let inner = length-append middle tail in
        let primary : primary_size m handle ≡ length head = omega (arith, first, v.narrow) in
        let secondary : secondary_size m handle ≡ length tail = omega (arith, last, v.narrow) in
        let w = v.writes d [] head (middle ++ tail) front whole front_size in
        let d' = (m.write_disk handle 0 front d).1 in
        let split : contents d' ≡ (front ++ middle) ++ (tail ++ []) =
          w.1 ∙ simp (append_assoc, append-nil) refl in
        let x = v.writes d' (front ++ middle) tail [] zeros split zeros_size in
        let used : length (front ++ middle) ≡ length head + length middle =
          length-append front middle ∙ ap (λ k. k + length middle) front_size in
        let place : secondary_offset m handle ≡ length (front ++ middle) =
          secondary_place (length (front ++ middle))
            (omega (arith, used, total, inner, last, v.sized d))
            (omega (arith, used, total, inner, small)) few in
        let d'' = (m.write_disk handle (length (front ++ middle)) zeros d').1 in
        record {
          disk = m.flush_blocks handle d'';
          returns =
              primary_steps (length head) d primary w.0
              ∙ secondary_steps (length tail) (length (front ++ middle)) d' secondary place x.0;
          holds = v.flushes d'' ∙ (x.1 ∙ simp (append_assoc, append-nil) refl);
        }
