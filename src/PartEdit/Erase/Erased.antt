-- ===== src/PartEdit/Erase/Erased.antt =====
-- ErasePartition of PartEdit.c sets all of the partition to zero.
use native.Mathlib.Nat.{add-mul, div-add-mod', div-le_self}
use uefi_toolkit_pkg.Base.{
  ℕ, zero, suc, ◌+◌, ◌-◌, ◌*◌, ◌/◌, ◌%◌, ◌^◌, ◌≤◌, ◌<◌, ◌≡◌, refl, sym, ap, ◌∙◌, true, false, [],
  ◌∷◌, ◌++◌, append_assoc, append-nil, some, arith, Bytes, length, length-append, length-take,
  length-drop, length-replicate, take, drop, take-append-drop, replicate, ltb, ◌==◌, if◌then◌else◌,
  Bool-cases, inl, inr, success,
}
use uefi_toolkit_pkg.PartEdit.{Machine, partition_size}
use uefi_toolkit_pkg.PartEdit.Stores.{Stores, Wrote}
use uefi_toolkit_pkg.PartEdit.Sparse.{fill_buf_size}
use uefi_toolkit_pkg.PartEdit.Erase.{erase_loop, erase_partition}

-- BlockIo as well replaces bytes inside the partition; a whole number of blocks fills the buffer.
pub record Blocks {D : Type 0} (m : Machine D) (handle : ℕ) (contents : D → Bytes) : Type 0 where
  pub some_block : 0 < m.block_size handle
  pub whole_blocks : fill_buf_size % m.block_size handle ≡ 0
  pub writes :
      (d : D) (lba : ℕ) (done old rest bytes : Bytes)
      → contents d ≡ done ++ (old ++ rest)
      → length bytes ≡ length old
      → length done ≡ lba * m.block_size handle
      → ((m.write_blocks handle lba bytes d).0 ≡ success)
        × (contents (m.write_blocks handle lba bytes d).1 ≡ done ++ (bytes ++ rest))

replicate-add : (j k : ℕ) (a : ℕ) → replicate (j + k) a ≡ replicate j a ++ replicate k a
replicate-add zero k a = let e : 0 + k ≡ k = omega arith in ap (λ i. replicate i a) e
replicate-add (suc j) k a =
    let e : suc j + k ≡ suc (j + k) = omega arith in
    ap (λ i. replicate i a) e ∙ ap (λ l. a ∷ l) (replicate-add j k a)

module _ {D : Type 0} (m : Machine D) (name : Bytes) (contents : D → Bytes)
    (s : Stores m name contents) where
  erase_steps :
      (fuel left offset count next : ℕ) (d : D)
      → (left == 0) ≡ false
      → (if ltb fill_buf_size left then fill_buf_size else left) ≡ count
      → (offset + count / m.block_size s.handle) % 2 ^ 64 ≡ next
      → (m.write_blocks s.handle offset (replicate count 0) d).0 ≡ success
      → erase_loop m (suc fuel) s.handle left offset d
        ≡ erase_loop m fuel s.handle
            (left - count)
            next
            (m.write_blocks s.handle offset (replicate count 0) d).1
  unfolding erase_loop
  erase_steps fuel left offset count next d more part sum fine = rw (more, part, sum, fine) refl

  flush_steps :
      (fuel left offset : ℕ) (d : D)
      → left ≡ 0
      → erase_loop m (suc fuel) s.handle left offset d ≡ some (success, m.flush_blocks s.handle d)
  unfolding erase_loop
  flush_steps fuel left offset d none_left = rw none_left refl

  module _ (b : Blocks m s.handle contents) where
    -- The last blocks.
    last_round :
        (fuel left offset : ℕ) (d : D) (done old : Bytes)
        → contents d ≡ done ++ old
        → left ≡ length old
        → 0 < left
        → left ≤ fill_buf_size
        → length done ≡ offset * m.block_size s.handle
        → Wrote contents
            (done ++ replicate left 0)
            (erase_loop m (suc (suc fuel)) s.handle left offset d)
    last_round fuel left offset d done old whole all some_left few at =
        let zeros : Bytes = replicate left 0 in
        let more : (left == 0) ≡ false = ground (arith, some_left) in
        let count : (if ltb fill_buf_size left then fill_buf_size else left) ≡ left =
          ground (arith, few) in
        let nothing : left - left ≡ 0 = omega arith in
        let w =
          b.writes d offset done old [] zeros (whole ∙ ap (λ k. done ++ k) (sym (append-nil old)))
            (length-replicate left zero ∙ all) at in
        let written = (m.write_blocks s.handle offset zeros d).1 in
        record {
          disk = m.flush_blocks s.handle written;
          returns =
              erase_steps (suc fuel) left offset left _ d more count refl w.0
              ∙ flush_steps fuel (left - left) _ written nothing;
          holds = s.flushes written ∙ (w.1 ∙ ap (λ k. done ++ k) (append-nil zeros));
        }

    -- A round before the last one, of `n` bytes.
    mid_round :
        (n fuel left offset : ℕ) (d : D) (done old : Bytes)
        → fill_buf_size ≡ n
        → n < left
        → contents d ≡ done ++ old
        → left ≡ length old
        → length done ≡ offset * m.block_size s.handle
        → (offset + n / m.block_size s.handle) % 2 ^ 64 ≡ offset + n / m.block_size s.handle
        → ((d' : D) (back : Bytes)
            → contents d' ≡ (done ++ replicate n 0) ++ back
            → left - n ≡ length back
            → length (done ++ replicate n 0) ≡ length done + n
            → length (done ++ replicate n 0)
              ≡ (offset + n / m.block_size s.handle) * m.block_size s.handle
            → Wrote contents
                ((done ++ replicate n 0) ++ replicate (left - n) 0)
                (erase_loop m fuel s.handle (left - n) (offset + n / m.block_size s.handle) d'))
        → Wrote contents (done ++ replicate left 0) (erase_loop m (suc fuel) s.handle left offset d)
    mid_round n fuel left offset d done old fill many whole all at wrap then_rest =
        let bs = m.block_size s.handle in
        let zeros : Bytes = replicate n 0 in
        let back = drop n old in
        let front_size : length (take n old) ≡ n = omega (arith, length-take n old) in
        let zeros_size : length zeros ≡ n = length-replicate n zero in
        let w =
          b.writes d offset done (take n old) back zeros
            (whole ∙ ap (λ k. done ++ k) (sym (take-append-drop n old)))
            (zeros_size ∙ sym front_size) at in
        let done_size : length (done ++ zeros) ≡ length done + n =
          length-append done zeros ∙ ap (λ k. length done + k) zeros_size in
        let whole_blocks : n % bs ≡ 0 = ap (λ k. k % bs) (sym fill) ∙ b.whole_blocks in
        let product : n / bs * bs ≡ n = omega (arith, div-add-mod' n bs, whole_blocks) in
        let next =
          then_rest (m.write_blocks s.handle offset zeros d).1 back
            (w.1 ∙ sym (append_assoc done zeros back)) (omega (arith, length-drop n old)) done_size
            (omega (arith, done_size, at, product, add-mul offset (n / bs) bs)) in
        let parts : n + (left - n) ≡ left = omega arith in
        let more : (left == 0) ≡ false = ground (arith, many) in
        let over : ltb n left ≡ true = ground (arith, many) in
        let count : (if ltb fill_buf_size left then fill_buf_size else left) ≡ n =
          ap (λ k. if ltb k left then k else left) fill ∙ ap (λ t. if t then n else left) over in
        record {
          disk = next.disk;
          returns =
              erase_steps fuel left offset n (offset + n / bs) d more count wrap w.0 ∙ next.returns;
          holds =
              next.holds
              ∙ append_assoc done zeros (replicate (left - n) 0)
              ∙ ap (λ k. done ++ k)
                  (sym (replicate-add n (left - n) 0) ∙ ap (λ k. replicate k 0) parts);
        }

    erase_loop-Wrote :
        (n fuel left offset : ℕ) (d : D) (done old : Bytes)
        → fill_buf_size ≡ n
        → contents d ≡ done ++ old
        → left ≡ length old
        → 0 < left
        → left < fuel
        → length done ≡ offset * m.block_size s.handle
        → offset ≤ length done
        → length done + left < 2 ^ 64
        → Wrote contents (done ++ replicate left 0) (erase_loop m fuel s.handle left offset d)
    erase_loop-Wrote n zero left offset d done old fill whole all some_left enough at low small =
        absurd (omega (arith, enough))
    erase_loop-Wrote n (suc zero) left offset d done old fill whole all some_left enough at low
          small =
        absurd (omega (arith, enough, some_left))
    erase_loop-Wrote n (suc (suc fuel)) left offset d done old fill whole all some_left enough at
          low small =
        let few_blocks = div-le_self n (m.block_size s.handle) in
        elim (Bool-cases (ltb n left)) [
          | inr few ↦
              let few' : left ≤ fill_buf_size = ground (arith, few, fill) in
              last_round fuel left offset d done old whole all some_left few' at
          | inl many ↦
              let many' : n < left = ground (arith, many) in
              let some_n : 0 < n = omega (arith, fill) in
              mid_round n (suc fuel) left offset d done old fill many' whole all at
                (omega (arith, few_blocks, low, many', small))
                (λ d' back whole' all' done_size place.
                  erase_loop-Wrote n (suc fuel) (left - n) (offset + n / m.block_size s.handle) d'
                    (done ++ replicate n 0) back fill whole' all' (omega (arith, many'))
                    (omega (arith, many', some_n, enough)) place
                    (omega (arith, done_size, few_blocks, low))
                    (omega (arith, done_size, many', small)))
        ]

    open_steps :
        (size : ℕ) (d : D)
        → partition_size m s.handle ≡ size
        → erase_partition m true name d ≡ erase_loop m (suc size) s.handle size 0 d
    unfolding erase_partition
    open_steps size d sized = rw (s.opens, sized) refl

    -- When the partition can be opened, is not empty and has less than 2 ^ 64 bytes, the fill buffer is
    -- allocated, FILL_BUF_SIZE is a multiple of the block size, and the disk replaces bytes inside the
    -- partition, ErasePartition succeeds, and every byte of the partition is then zero.
    pub erase_partition-Wrote :
        (d : D)
        → 0 < length (contents d)
        → length (contents d) < 2 ^ 64
        → Wrote contents (replicate (length (contents d)) 0) (erase_partition m true name d)
    erase_partition-Wrote d some_byte small =
        let size = length (contents d) in
        let w =
          erase_loop-Wrote fill_buf_size (suc size) size 0 d [] (contents d) refl refl refl
            some_byte (omega arith) (omega arith) (omega arith) (omega arith) in
        record {
          disk = w.disk;
          returns = open_steps size d (sym (s.sized d)) ∙ w.returns;
          holds = w.holds;
        }
