-- ===== src/PartEdit/Sparse/Fill.antt =====
-- The fill loop of FlashSparseImage of PartEdit.c repeats its value.
use uefi_toolkit_pkg.Base.{
  ℕ, zero, suc, ◌+◌, ◌-◌, ◌%◌, ◌^◌, ◌≤◌, ◌<◌, ◌≡◌, refl, sym, ap, ◌∙◌, false, [], ◌∷◌, ◌++◌,
  append_assoc, append-nil, some, arith, Bytes, length, length-append, length-take, length-drop,
  take, drop, take-append-drop, ltb, ◌==◌, if◌then◌else◌, success,
}
use uefi_toolkit_pkg.PartEdit.{Machine, write_partition}
use uefi_toolkit_pkg.PartEdit.Stores.{Stores, Wrote, write_partition-Wrote}
use uefi_toolkit_pkg.PartEdit.Sparse.{fill_buf_size, set_mem32, fill_loop}

pub length-set_mem32 : (n : ℕ) (v : Bytes) → 0 < length v → length (set_mem32 n v) ≡ n
length-set_mem32 zero v h = refl
length-set_mem32 (suc n) [] h = absurd (omega arith)
length-set_mem32 (suc n) (b ∷ v) h =
    ap suc (length-set_mem32 n (v ++ b ∷ []) (omega (arith, length-append v (b ∷ []))))

-- Whole values first.
set_mem32-add :
    (count n : ℕ) (a b c d : ℕ)
    → count % 4 ≡ 0
    → let v = a ∷ b ∷ c ∷ d ∷ [] in set_mem32 (count + n) v ≡ set_mem32 count v ++ set_mem32 n v
set_mem32-add zero n a b c d h =
    let e : 0 + n ≡ n = omega arith in ap (λ k. set_mem32 k (a ∷ b ∷ c ∷ d ∷ [])) e
set_mem32-add (suc zero) n a b c d h = absurd (omega arith)
set_mem32-add (suc (suc zero)) n a b c d h = absurd (omega arith)
set_mem32-add (suc (suc (suc zero))) n a b c d h = absurd (omega arith)
set_mem32-add (suc (suc (suc (suc count)))) n a b c d h =
    let e : suc (suc (suc (suc count))) + n ≡ suc (suc (suc (suc (count + n)))) = omega arith in
    ap (λ k. set_mem32 k (a ∷ b ∷ c ∷ d ∷ [])) e
    ∙ ap (λ k. a ∷ b ∷ c ∷ d ∷ k) (set_mem32-add count n a b c d (omega arith))

module _ {D : Type 0} (m : Machine D) (name : Bytes) (contents : D → Bytes)
    (s : Stores m name contents) where
  fill_steps :
      (fuel left count offset next : ℕ) (image filled : Bytes) (d d' : D)
      → (left == 0) ≡ false
      → ltb (length image) 4 ≡ false
      → (if ltb fill_buf_size left then fill_buf_size else left) ≡ count
      → set_mem32 count (take 4 image) ≡ filled
      → write_partition m name offset filled count d ≡ some (success, d')
      → (offset + count) % 2 ^ 64 ≡ next
      → fill_loop m name (suc fuel) left offset image d
        ≡ fill_loop m name fuel (left - count) next image d'
  unfolding fill_loop
  fill_steps fuel left count offset next image filled d d' more enough part value written sum =
      rw (more, enough, part, value, written, sum) refl

  pub fill_loop-Wrote :
      (fuel left offset : ℕ) (a b c e : ℕ) (tail done old rest : Bytes) (d : D)
      → left < fuel
      → contents d ≡ done ++ (old ++ rest)
      → left ≡ length old
      → left % 4 ≡ 0
      → offset ≡ length done
      → length done + left < 2 ^ 64
      → let v = a ∷ b ∷ c ∷ e ∷ [] in
        Wrote contents
          (done ++ (set_mem32 left v ++ rest))
          (fill_loop m name fuel left offset (v ++ tail) d)
  unfolding fill_loop
  fill_loop-Wrote zero left offset a b c e tail done old rest d enough whole all quad at small =
      absurd (omega arith)
  fill_loop-Wrote (suc fuel) zero offset a b c e tail done [] rest d enough whole all quad at
        small =
      record { disk = d; returns = refl; holds = whole }
  fill_loop-Wrote (suc fuel) zero offset a b c e tail done (o ∷ old) rest d enough whole all quad at
        small =
      absurd (omega arith)
  fill_loop-Wrote (suc fuel) (suc left') offset a b c e tail done old rest d enough whole all quad
        at small =
      let left = suc left' in
      let v = a ∷ b ∷ c ∷ e ∷ [] in
      let count = if ltb fill_buf_size left then fill_buf_size else left in
      let bounds : (count ≤ left) × (0 < count) × (count % 4 ≡ 0) = ground arith in
      let front = take count old in
      let back = drop count old in
      let front_size : length front ≡ count = omega (arith, length-take count old, all) in
      let back_size = length-drop count old in
      let filled = set_mem32 count v in
      let filled_size = length-set_mem32 count v (omega arith) in
      let split : contents d ≡ done ++ (front ++ (back ++ rest)) =
        whole
        ∙ ap (λ k. done ++ k)
            (ap (λ k. k ++ rest) (sym (take-append-drop count old))
              ∙ append_assoc front back rest) in
      let w =
        write_partition-Wrote m name contents s d done front (back ++ rest) filled [] offset count
          split (omega (arith, filled_size, front_size)) at (sym filled_size) in
      let written : write_partition m name offset filled count d ≡ some (success, w.disk) =
        ap (λ k. write_partition m name offset k count d) (sym (append-nil filled)) ∙ w.returns in
      let joined = length-append done filled in
      let next =
        fill_loop-Wrote fuel (left - count) (offset + count) a b c e tail (done ++ filled) back rest
          w.disk (omega (arith, bounds)) (w.holds ∙ sym (append_assoc done filled (back ++ rest)))
          (omega (arith, back_size, all)) (omega (arith, bounds, quad))
          (omega (arith, at, joined, filled_size)) (omega (arith, joined, filled_size, bounds)) in
      let more : (left == 0) ≡ false = ground arith in
      let value : ltb (length (v ++ tail)) 4 ≡ false = ground arith in
      let sum : (offset + count) % 2 ^ 64 ≡ offset + count = omega (arith, at, bounds) in
      let parts : count + (left - count) ≡ left = omega (arith, bounds) in
      record {
        disk = next.disk;
        returns =
            fill_steps fuel left count offset (offset + count) (v ++ tail) filled d w.disk more
              value refl refl written sum
            ∙ next.returns;
        holds =
            next.holds
            ∙ append_assoc done filled (set_mem32 (left - count) v ++ rest)
            ∙ ap (λ k. done ++ k)
                (sym (append_assoc filled (set_mem32 (left - count) v) rest)
                  ∙ ap (λ k. k ++ rest)
                      (sym (set_mem32-add count (left - count) a b c e bounds.2)
                        ∙ ap (λ k. set_mem32 k v) parts));
      }
