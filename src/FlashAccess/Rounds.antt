-- ===== src/FlashAccess/Rounds.antt =====
-- The loop of PerformFlashWriteWithProgress over the blocks.
use uefi_toolkit_pkg.Base.{
  ℕ, zero, suc, ◌+◌, ◌-◌, ◌*◌, ◌%◌, ◌^◌, ◌≤◌, ◌<◌, ◌≡◌, ◌⊎◌, inl, inr, refl, sym, subst, ap, ◌∙◌,
  Bool, true, false, List, [], ◌∷◌, ◌++◌, map, append_assoc, append-nil, arith, Bytes, drop, get_or,
  ltb, if◌then◌else◌, Bool-cases, Status, success, warning, error, efi_error, EfiError,
}
use uefi_toolkit_pkg.FlashAccess.Device.{Board, block_size, Confined}
use uefi_toolkit_pkg.FlashAccess.Spi.{Flow, returns, ◌>>=◌}
use uefi_toolkit_pkg.FlashAccess.Update.{
  Call, restore_tpl, progress, report, percentage, update_block, After, next_block, update_loop,
}
use uefi_toolkit_pkg.FlashAccess.Frame.{Inside, Programmed, SameOutside}
use uefi_toolkit_pkg.FlashAccess.Block.{BlockDone, update_block-Done}

-- What the loop over the blocks comes to, from `before` on.
pub record Looped (b : Board) (before : List Call) (offset n : ℕ) (buf : Bytes) (d : b.Device)
    (r : Flow (After b)) : Type 0 where
  pub status : Status
  pub told : List ℕ
  pub device : b.Device
  pub ends : r ≡ returns (status, before ++ map progress told ++ restore_tpl ∷ [], device)
  pub same : SameOutside b offset n d device
  pub holds : efi_error status ≡ false → Programmed b offset n buf device

module _ (b : Board) where
  get_or-drop : (n : ℕ) (xs : Bytes) (i : ℕ) → get_or (drop n xs) i 0 ≡ get_or xs (n + i) 0
  get_or-drop zero xs i = let same : i ≡ zero + i = omega arith in ap (λ k. get_or xs k 0) same
  get_or-drop (suc n) [] i = refl
  get_or-drop (suc n) (x ∷ xs) i =
      let next : suc (n + i) ≡ suc n + i = omega arith in
      get_or-drop n xs i ∙ ap (λ k. get_or (x ∷ xs) k 0) next

  -- A block, and the rest after it.
  Programmed-step :
      (offset n : ℕ) (buf : Bytes) (d e : b.Device)
      → Programmed b offset block_size buf d
      → SameOutside b (offset + block_size) n d e
      → Programmed b (offset + block_size) n (drop block_size buf) e
      → Programmed b offset (block_size + n) buf e
  Programmed-step offset n buf d e first same rest i lt = elim (Bool-cases (ltb i block_size)) [
    | inl low ↦ same (offset + i) (inl (ground (arith, low))) ∙ first i (ground (arith, low))
    | inr high ↦
        let at : offset + i ≡ offset + block_size + (i - block_size) = ground (arith, high) in
        let back : block_size + (i - block_size) ≡ i = ground (arith, high) in
        ap (b.flash e) at
        ∙ rest (i - block_size) (ground (arith, high, lt))
        ∙ (get_or-drop block_size buf (i - block_size) ∙ ap (λ k. get_or buf k 0) back)
  ]

  SameOutside-step :
      (offset n : ℕ) (d e f : b.Device)
      → SameOutside b offset block_size d e
      → SameOutside b (offset + block_size) n e f
      → SameOutside b offset (block_size + n) d f
  SameOutside-step offset n d e f first rest i (inl low) =
      rest i (inl (omega arith)) ∙ first i (inl low)
  SameOutside-step offset n d e f first rest i (inr high) =
      rest i (inr (omega arith)) ∙ first i (inr (omega arith))

  shown : Bool → ℕ → List ℕ
  shown true n = n ∷ []
  shown false n = []

  shown_step :
      (before : List Call) (r : Bool) (n : ℕ) (told : List ℕ)
      → (before ++ report r n) ++ map progress told ≡ before ++ map progress (shown r n ++ told)
  unfolding shown
  shown_step before true n told = append_assoc before _ _
  shown_step before false n told = append_assoc before _ _

  shown_end :
      (before : List Call) (r : Bool) (n : ℕ)
      → before ++ report r n ≡ before ++ map progress (shown r n)
  unfolding shown
  shown_end before true n = refl
  shown_end before false n = refl

  -- A block that failed ends the loop; after one that did not, the rest is done.
  module _ (before : List Call) (calls : List Call) (percents : List ℕ) (address n : ℕ)
      (buf : Bytes) (d : b.Device) (more : Status → List Call → b.Device → Flow (After b))
      (above : b.base ≤ address)
      (calls_step : (told : List ℕ)
        → calls ++ map progress told ≡ before ++ map progress (percents ++ told)) where
    near :
        {i : ℕ}
        → (i < address - b.base) ⊎ (address - b.base + (block_size + n) ≤ i)
        → (i < address - b.base) ⊎ (address - b.base + block_size ≤ i)
    near (inl low) = inl low
    near (inr high) = inr (omega arith)

    stopped :
        (c : EfiError) (e : b.Device)
        → SameOutside b (address - b.base) block_size d e
        → calls ≡ before ++ map progress percents
        → Looped b before
            (address - b.base)
            (block_size + n)
            buf
            d
            (returns (error c, calls ++ restore_tpl ∷ [], e))
    stopped c e same step = record {
      status = error c;
      told = percents;
      device = e;
      ends = ap (λ cs. returns (error c, cs ++ restore_tpl ∷ [], e)) step;
      same = λ i out. same i (near out);
      holds = λ wrong. absurd (ground (arith, wrong));
    }

    went_on :
        (s : Status) (e : b.Device)
        → Looped b calls (address + block_size - b.base) n (drop block_size buf) e (more s calls e)
        → SameOutside b (address - b.base) block_size d e
        → Programmed b (address - b.base) block_size buf e
        → Looped b before (address - b.base) (block_size + n) buf d (more s calls e)
    went_on s e l same holds =
        let next : address + block_size - b.base ≡ address - b.base + block_size =
          omega (arith, above) in
        let same' : SameOutside b (address - b.base + block_size) n e l.device =
          subst (λ o. SameOutside b o n e l.device) next l.same in
        record {
          status = l.status;
          told = percents ++ l.told;
          device = l.device;
          ends =
              l.ends
              ∙ ap (λ cs. returns (l.status, cs ++ restore_tpl ∷ [], l.device)) (calls_step l.told);
          same = SameOutside-step (address - b.base) n d e l.device same same';
          holds = λ ok.
              Programmed-step (address - b.base) n buf e l.device holds same'
                (subst (λ o. Programmed b o n (drop block_size buf) l.device) next (l.holds ok));
        }

    next_block-Looped :
        (status : Status) (e : b.Device)
        → SameOutside b (address - b.base) block_size d e
        → (efi_error status ≡ false → Programmed b (address - b.base) block_size buf e)
        → calls ≡ before ++ map progress percents
        → ((s : Status)
            → efi_error s ≡ false
            → Looped b calls
                (address + block_size - b.base)
                n
                (drop block_size buf)
                e
                (more s calls e))
        → Looped b before
            (address - b.base)
            (block_size + n)
            buf
            d
            (next_block b calls (status, e) more)
    next_block-Looped (error c) e same holds step rest = stopped c e same step
    next_block-Looped success e same holds step rest =
        went_on success e (rest success refl) same (holds refl)
    next_block-Looped (warning w) e same holds step rest =
        went_on (warning w) e (rest (warning w) refl) same (holds refl)

    round-Looped :
        (r : Flow (Status × b.Device)) (done : BlockDone b address buf d r)
        → calls ≡ before ++ map progress percents
        → ((s : Status) (e : b.Device)
            → efi_error s ≡ false
            → Looped b calls
                (address + block_size - b.base)
                n
                (drop block_size buf)
                e
                (more s calls e))
        → Looped b before
            (address - b.base)
            (block_size + n)
            buf
            d
            (r >>= λ done. next_block b calls done more)
    round-Looped r done step rest = rw done.ends (
        next_block-Looped done.status done.device done.same done.holds step
          (λ s. rest s done.device))

  pub update_loop-Looped :
      (reported : Bool) (start end count rounds index address length : ℕ) (buf : Bytes)
      (status : Status) (calls : List Call) (d : b.Device)
      → rounds * block_size ≤ length
      → Inside b address (rounds * block_size)
      → Confined b
      → efi_error status ≡ false
      → Looped b calls
          (address - b.base)
          (rounds * block_size)
          buf
          d
          (update_loop b reported start end count rounds index address length buf status calls d)
  unfolding update_loop
  update_loop-Looped reported start end count zero index address len buf status calls d long h
        confined fine =
      record {
        status = status;
        told = [];
        device = d;
        ends = ap (λ cs. returns (status, cs ++ restore_tpl ∷ [], d)) (sym (append-nil calls));
        same = λ i out. refl;
        holds = λ ok i lt. absurd (omega arith);
      }
  update_loop-Looped reported start end count (suc rounds) index address len buf status calls d long
        h confined fine =
      let here : Inside b address block_size = record {
        above = h.above;
        below = omega (arith, h.below);
        aligned = h.aligned;
        narrow = h.narrow;
      } in
      let there : Inside b (address + block_size) (rounds * block_size) = record {
        above = omega (arith, h.above);
        below = omega (arith, h.below);
        aligned = omega (arith, h.above, h.aligned);
        narrow = h.narrow;
      } in
      let percent = percentage start end index count in
      let calls' = calls ++ report reported percent in
      let wraps : (address + block_size) % 2 ^ 64 ≡ address + block_size =
        omega (arith, h.above, h.below, h.narrow) in
      let shorter : (if ltb block_size len then len - block_size else 0) ≡ len - block_size =
        ground arith in
      let all : suc rounds * block_size ≡ block_size + rounds * block_size = omega arith in
      rw (wraps, shorter, all)
        (round-Looped calls calls' (shown reported percent) address (rounds * block_size) buf d
          (update_loop b reported start end count rounds (index + 1) (address + block_size)
            (len - block_size) (drop block_size buf))
          h.above (shown_step calls reported percent) (update_block b address buf len status d)
          (update_block-Done b address len buf status d (omega arith) here confined fine)
          (shown_end calls reported percent)
          (λ s e ok.
            update_loop-Looped reported start end count rounds (index + 1) (address + block_size)
              (len - block_size) (drop block_size buf) s calls' e (omega arith) there confined ok))
