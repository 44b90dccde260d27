-- ===== src/PartEdit/Sparse/Flashed.antt =====
-- FlashPartition of PartEdit.c with a sparse image.
use uefi_toolkit_pkg.Base.{
  ℕ, suc, ◌+◌, ◌-◌, ◌*◌, ◌%◌, ◌^◌, ◌<◌, ◌≡◌, refl, sym, ap, subst, ◌∙◌, true, List, [], ◌∷◌, ◌++◌,
  append_assoc, Option, some, arith, Bytes, length, length-append, length-take, length-drop, take,
  drop, take-append-drop, drop-append, ◌==◌, if◌then◌else◌, Status, success,
}
use uefi_toolkit_pkg.PartEdit.{Machine, write_partition}
use uefi_toolkit_pkg.PartEdit.Stores.{Stores, Wrote, write_partition-Wrote}
use uefi_toolkit_pkg.PartEdit.Sparse.{
  chunk_type_raw, chunk_type_fill, chunk_type_dont_care, chunk_header, fill_loop, chunk_loop,
  flash_sparse_image, flash_partition,
}
use uefi_toolkit_pkg.PartEdit.Sparse.Fill.{length-set_mem32, fill_loop-Wrote}
use uefi_toolkit_pkg.PartEdit.Sparse.Image.{
  Chunk, raw, fill, dont_care, blocks, encode_chunks, sparse_image, content, painted, Sized, Fit,
  chunk_header_lem, sparse_header_lem, magic_lem,
}

module _ {D : Type 0} (m : Machine D) (name : Bytes) where
  raw_steps :
      (bs chunks n size offset next : ℕ) (image behind left : Bytes) (st : Status) (d d' : D)
      → chunk_header image ≡ some (record { chunk_type = chunk_type_raw; chunk_size = n })
      → drop 12 image ≡ behind
      → n * bs % 2 ^ 64 ≡ size
      → n * bs % 2 ^ 32 ≡ size
      → drop size behind ≡ left
      → (offset + size) % 2 ^ 64 ≡ next
      → write_partition m name offset behind size d ≡ some (success, d')
      → chunk_loop m name bs (suc chunks) image offset st d
        ≡ chunk_loop m name bs chunks left next success d'
  unfolding chunk_loop
  raw_steps bs chunks n size offset next image behind left st d d' header rest wide narrow passed
        sum written =
      rw (header, rest, wide, narrow, passed, sum, written) refl

  fill_steps :
      (bs chunks n size offset next : ℕ) (image behind left : Bytes) (d d' : D)
      → chunk_header image ≡ some (record { chunk_type = chunk_type_fill; chunk_size = n })
      → drop 12 image ≡ behind
      → n * bs % 2 ^ 64 ≡ size
      → drop 4 behind ≡ left
      → (offset + size) % 2 ^ 64 ≡ next
      → fill_loop m name (suc size) size offset behind d ≡ some (success, d')
      → chunk_loop m name bs (suc chunks) image offset success d
        ≡ chunk_loop m name bs chunks left next success d'
  unfolding chunk_loop
  fill_steps bs chunks n size offset next image behind left d d' header rest wide passed sum
        written =
      let same : (if size == 0 then success else success) ≡ success = ground arith in
      rw (header, rest, wide, passed, sum, written, same) refl

  skip_steps :
      (bs chunks n size offset next : ℕ) (image behind : Bytes) (st : Status) (d : D)
      → chunk_header image ≡ some (record { chunk_type = chunk_type_dont_care; chunk_size = n })
      → drop 12 image ≡ behind
      → n * bs % 2 ^ 64 ≡ size
      → (offset + size) % 2 ^ 64 ≡ next
      → chunk_loop m name bs (suc chunks) image offset st d
        ≡ chunk_loop m name bs chunks behind next st d
  unfolding chunk_loop
  skip_steps bs chunks n size offset next image behind st d header rest wide sum =
      rw (header, rest, wide, sum) refl

  -- One chunk: `new` stands where it has to, and the loop goes on behind it.
  record Passed (contents : D → Bytes) (bs size offset : ℕ) (c : Chunk) (rest done new back : Bytes)
      (chunks : List Chunk) (r : Option (Status × D)) : Type 0 where
    disk : D
    returns : r ≡ chunk_loop m name bs (length chunks) rest (offset + size) success disk
    holds : contents disk ≡ done ++ (new ++ back)

  module _ (contents : D → Bytes) (s : Stores m name contents) (bs : ℕ) where
    chunk-Passed :
        (c : Chunk) (chunks : List Chunk) (size offset : ℕ) (d : D) (done old back : Bytes)
        → Sized size c
        → blocks c * bs ≡ size
        → size ≡ length old
        → offset ≡ length done
        → length done + size < 2 ^ 64
        → contents d ≡ done ++ (old ++ back)
        → Passed contents bs size offset c
            (encode_chunks chunks)
            done
            (content c size old)
            back
            chunks
            (chunk_loop m name bs
              (suc (length chunks))
              (encode_chunks (c ∷ chunks))
              offset
              success
              d)
    chunk-Passed (raw n bytes) chunks size offset d done old back (small, narrow, full) count all at
          bound whole =
        let rest = encode_chunks chunks in
        let w =
          write_partition-Wrote m name contents s d done old back bytes rest offset size whole
            (full ∙ all) at (sym full) in
        let passed : drop size (bytes ++ rest) ≡ rest =
          ap (λ k. drop k (bytes ++ rest)) (sym full) ∙ drop-append bytes rest in
        record {
          disk = w.disk;
          returns =
              raw_steps bs (length chunks) n size offset (offset + size) _ (bytes ++ rest) rest
                success d w.disk
                (chunk_header_lem chunk_type_raw n (12 + length bytes) (bytes ++ rest) (omega arith)
                  small)
                refl (omega (arith, count)) (omega (arith, count)) passed (omega (arith, at))
                w.returns;
          holds = w.holds;
        }
    chunk-Passed (fill n a b c e) chunks size offset d done old back (small, narrow, quad) count all
          at bound whole =
        let rest = encode_chunks chunks in
        let w =
          fill_loop-Wrote m name contents s (suc size) size offset a b c e rest done old back d
            (omega arith) whole all quad at bound in
        record {
          disk = w.disk;
          returns =
              fill_steps bs (length chunks) n size offset (offset + size) _ (a ∷ b ∷ c ∷ e ∷ rest)
                rest d w.disk
                (chunk_header_lem chunk_type_fill n 16 (a ∷ b ∷ c ∷ e ∷ rest) (omega arith) small)
                refl (omega (arith, count)) refl (omega (arith, at)) w.returns;
          holds = w.holds;
        }
    chunk-Passed (dont_care n) chunks size offset d done old back (small, narrow) count all at bound
          whole =
        let rest = encode_chunks chunks in
        record {
          disk = d;
          returns =
              skip_steps bs (length chunks) n size offset (offset + size) _ rest success d
                (chunk_header_lem chunk_type_dont_care n 12 rest (omega arith) small) refl
                (omega (arith, count)) (omega (arith, at));
          holds = whole;
        }

    length-content :
        (c : Chunk) (size : ℕ) (old : Bytes)
        → Sized size c
        → length old ≡ size
        → length (content c size old) ≡ size
    length-content (raw n bytes) size old fits same = fits.2
    length-content (fill n a b c d) size old fits same =
        length-set_mem32 size (a ∷ b ∷ c ∷ d ∷ []) (omega arith)
    length-content (dont_care n) size old fits same = same

    chunk_loop-Wrote :
        (chunks : List Chunk) (offset : ℕ) (d : D) (done old : Bytes)
        → Fit bs (length old) chunks
        → offset ≡ length done
        → length done + length old < 2 ^ 64
        → contents d ≡ done ++ old
        → Wrote contents
            (done ++ painted bs chunks old)
            (chunk_loop m name bs (length chunks) (encode_chunks chunks) offset success d)
    unfolding chunk_loop
    chunk_loop-Wrote [] offset d done old fit at bound whole = record {
      disk = d;
      returns = refl;
      holds = whole;
    }
    chunk_loop-Wrote (c ∷ chunks) offset d done old (sized, room, fit) at bound whole =
        let size = blocks c * bs in
        let here = take size old in
        let back = drop size old in
        let here_size : length here ≡ size = omega (arith, length-take size old, room) in
        let back_size : length back ≡ length old - size = length-drop size old in
        let new = content c size here in
        let new_size : length new ≡ size = length-content c size here sized here_size in
        let p =
          chunk-Passed c chunks size offset d done here back sized refl (sym here_size) at
            (omega (arith, room)) (whole ∙ ap (λ k. done ++ k) (sym (take-append-drop size old))) in
        let joined : length (done ++ new) ≡ length done + size =
          length-append done new ∙ ap (λ k. length done + k) new_size in
        let next =
          chunk_loop-Wrote chunks (offset + size) p.disk (done ++ new) back
            (subst (λ k. Fit bs k chunks) (sym back_size) fit) (omega (arith, at, joined))
            (omega (arith, joined, back_size, room)) (p.holds ∙ sym (append_assoc done new back)) in
        record {
          disk = next.disk;
          returns = p.returns ∙ next.returns;
          holds = next.holds ∙ append_assoc done new (painted bs chunks back);
        }

    flash_steps :
        (total : ℕ) (chunks : List Chunk) (d : D)
        → bs < 2 ^ 32
        → length chunks < 2 ^ 32
        → flash_partition m name true (sparse_image bs total chunks) d
          ≡ chunk_loop m name bs (length chunks) (encode_chunks chunks) 0 success d
    unfolding flash_partition flash_sparse_image
    flash_steps total chunks d small few =
        rw (magic_lem bs total chunks, sparse_header_lem bs total chunks small few) refl

    -- When the partition can be opened and has less than 2 ^ 64 bytes, and the disk replaces bytes inside
    -- it, let a sparse image have chunks that the code supports, each below 4 GiB and with data as long
    -- as its header says, fills of whole values, all of them inside the partition, and a block size and
    -- a number of chunks that their fields hold. FlashPartition then reads nothing behind the image and
    -- succeeds, if the fill buffer is allocated: the partition has each chunk at its place, and its old
    -- bytes where a chunk is not to care or none is.
    pub flash_partition-Wrote :
        (total : ℕ) (chunks : List Chunk) (d : D)
        → bs < 2 ^ 32
        → length chunks < 2 ^ 32
        → length (contents d) < 2 ^ 64
        → Fit bs (length (contents d)) chunks
        → Wrote contents
            (painted bs chunks (contents d))
            (flash_partition m name true (sparse_image bs total chunks) d)
    flash_partition-Wrote total chunks d small few bound fit =
        let w = chunk_loop-Wrote chunks 0 d [] (contents d) fit refl (omega arith) refl in
        record {
          disk = w.disk;
          returns = flash_steps total chunks d small few ∙ w.returns;
          holds = w.holds;
        }
