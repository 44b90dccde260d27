-- ===== src/RamDebug/Loops.antt =====
-- What the loops of RamDebugLib.c do to a writable buffer, as equations between lists.
use uefi_toolkit_pkg.Base.{
  get_or-append_self, ℕ, ◌+◌, ◌≤◌, ◌≡◌, refl, sym, ap, ◌∙◌, true, [], ◌∷◌, ◌++◌, append_assoc,
  append-nil, arith, Bytes, length, length-append, set-append, drop, replicate, get_or, set, ltb,
}
use uefi_toolkit_pkg.RamDebug.{
  Access, ran, Ram, Setup, default_value, read8, write8, fill, move, save,
}

-- A region with this header and this buffer.
abbrev pub region : ℕ → ℕ → Bytes → Ram
region sig latest buffer = record { sig = sig; latest_idx = latest; buffer = buffer }

module _ (s : Setup) (w : s.writable ≡ true) (sig latest : ℕ) where
  write8_at :
      (v y i : ℕ) (xs ys buffer : Bytes)
      → i ≡ length xs
      → buffer ≡ xs ++ y ∷ ys
      → write8 s i v (region sig latest buffer) ≡ ran (region sig latest (xs ++ v ∷ ys))
  unfolding write8
  write8_at v y i xs ys buffer at whole =
      let size : length buffer ≡ length xs + length (y ∷ ys) =
        ap length whole ∙ length-append xs (y ∷ ys) in
      let inside : ltb i (length buffer) ≡ true = ground (arith, at, size) in
      let written : set buffer i v ≡ xs ++ v ∷ ys =
        ap (λ k. set buffer k v) at
        ∙ (ap (λ b. set b (length xs) v) whole ∙ set-append xs ys y v) in
      rw (inside, w, written) refl

  read8_at :
      (y i : ℕ) (xs ys buffer : Bytes)
      → i ≡ length xs
      → buffer ≡ xs ++ y ∷ ys
      → read8 (region sig latest buffer) i ≡ ran y
  unfolding read8
  read8_at y i xs ys buffer at whole =
      let size : length buffer ≡ length xs + length (y ∷ ys) =
        ap length whole ∙ length-append xs (y ∷ ys) in
      let inside : ltb i (length buffer) ≡ true = ground (arith, at, size) in
      let value : get_or buffer i 0 ≡ y =
        ap (λ k. get_or buffer k 0) at
        ∙ (ap (λ b. get_or b (length xs) 0) whole ∙ get_or-append_self xs ys y 0) in
      rw (inside, value) refl

  -- The saved bytes replace as many bytes of the buffer.
  pub save_lem :
      (bytes ys xs buffer : Bytes) (i : ℕ)
      → i ≡ length xs
      → buffer ≡ xs ++ ys
      → length bytes ≤ length ys
      → save s bytes i (region sig latest buffer)
        ≡ ran (region sig latest ((xs ++ bytes) ++ drop (length bytes) ys))
  unfolding save
  save_lem [] ys xs buffer i at whole room =
      ap (λ b. ran (region sig latest b)) (whole ∙ ap (λ b. b ++ ys) (sym (append-nil xs)))
  save_lem (b ∷ bytes) [] xs buffer i at whole room = absurd (omega arith)
  save_lem (b ∷ bytes) (y ∷ ys) xs buffer i at whole room =
      rw (write8_at b y i xs ys buffer at whole) (
        save_lem bytes ys (xs ++ b ∷ []) (xs ++ b ∷ ys) (i + 1)
          (omega (arith, at, length-append xs (b ∷ []))) (sym (append_assoc xs (b ∷ []) ys))
          (omega arith)
        ∙ ap (λ c. ran (region sig latest (c ++ drop (length bytes) ys)))
            (append_assoc xs (b ∷ []) bytes))

  -- Filling up to the end.
  pub fill_lem :
      (ys xs buffer : Bytes) (i : ℕ)
      → i ≡ length xs
      → buffer ≡ xs ++ ys
      → fill s (length ys) i (region sig latest buffer)
        ≡ ran (region sig latest (xs ++ replicate (length ys) default_value))
  unfolding fill
  fill_lem [] xs buffer i at whole = ap (λ b. ran (region sig latest b)) whole
  fill_lem (y ∷ ys) xs buffer i at whole = rw (write8_at default_value y i xs ys buffer at whole) (
      fill_lem ys (xs ++ default_value ∷ []) (xs ++ default_value ∷ ys) (i + 1)
        (omega (arith, at, length-append xs (default_value ∷ [])))
        (sym (append_assoc xs (default_value ∷ []) ys))
      ∙ ap (λ c. ran (region sig latest c))
          (append_assoc xs (default_value ∷ []) (replicate (length ys) default_value)))

  -- What a move comes to: `kept` stands behind `front`, and the size is as before.
  pub record Moved (front kept : Bytes) (size : ℕ) (r : Access Ram) : Type 0 where
    pub tail : Bytes
    pub returns : r ≡ ran (region sig latest ((front ++ kept) ++ tail))
    pub sized : length ((front ++ kept) ++ tail) ≡ size

  Moved-cons :
      (k : ℕ) (front kept : Bytes) (n m : ℕ) (r : Access Ram)
      → n ≡ m
      → Moved (front ++ k ∷ []) kept n r
      → Moved front (k ∷ kept) m r
  Moved-cons k front kept n m r same h =
      let joined : ((front ++ k ∷ []) ++ kept) ++ h.tail ≡ (front ++ k ∷ kept) ++ h.tail =
        ap (λ b. b ++ h.tail) (append_assoc front (k ∷ []) kept) in
      record {
        tail = h.tail;
        returns = h.returns ∙ ap (λ b. ran (region sig latest b)) joined;
        sized = sym (ap length joined) ∙ (h.sized ∙ same);
      }

  -- `kept` moves forward over `gap`, which may be empty.
  pub move_lem :
      (kept front gap rest buffer : Bytes) (offset i : ℕ)
      → i ≡ length front
      → offset ≡ length gap
      → buffer ≡ (front ++ gap) ++ (kept ++ rest)
      → Moved front kept (length buffer) (move s (length kept) offset i (region sig latest buffer))
  unfolding move
  move_lem [] front gap rest buffer offset i at off whole =
      let start : buffer ≡ (front ++ []) ++ (gap ++ rest) =
        whole
        ∙ (append_assoc front gap rest ∙ ap (λ b. b ++ (gap ++ rest)) (sym (append-nil front))) in
      record {
        tail = gap ++ rest;
        returns = ap (λ b. ran (region sig latest b)) start;
        sized = ap length (sym start);
      }
  move_lem (k ∷ kept) front [] rest buffer offset i at off whole =
      let split : buffer ≡ front ++ k ∷ (kept ++ rest) =
        whole ∙ ap (λ b. b ++ k ∷ (kept ++ rest)) (append-nil front) in
      rw
        (
          read8_at k (offset + i) front (kept ++ rest) buffer (omega (arith, at, off)) split,
          write8_at k k i front (kept ++ rest) buffer at split,
        )
        (Moved-cons k front kept (length (front ++ k ∷ (kept ++ rest))) (length buffer) _
          (ap length (sym split))
          (move_lem kept (front ++ k ∷ []) [] rest (front ++ k ∷ (kept ++ rest)) offset (i + 1)
            (omega (arith, at, length-append front (k ∷ []))) off
            (simp (append_assoc, append-nil) refl)))
  move_lem (k ∷ kept) front (g ∷ gap) rest buffer offset i at off whole =
      let after = front ++ k ∷ (gap ++ k ∷ (kept ++ rest)) in
      let split : buffer ≡ front ++ g ∷ (gap ++ k ∷ (kept ++ rest)) =
        whole ∙ append_assoc front (g ∷ gap) (k ∷ (kept ++ rest)) in
      let size : length after ≡ length buffer = omega (
        arith,
        ap length split,
        length-append front (g ∷ (gap ++ k ∷ (kept ++ rest))),
        length-append front (k ∷ (gap ++ k ∷ (kept ++ rest))),
      ) in
      rw
        (
          read8_at k (offset + i) (front ++ g ∷ gap) (kept ++ rest) buffer
              (omega (arith, at, off, length-append front (g ∷ gap))) whole,
          write8_at k g i front (gap ++ k ∷ (kept ++ rest)) buffer at split,
        )
        (Moved-cons k front kept (length after) (length buffer) _ size (
          move_lem kept (front ++ k ∷ []) (gap ++ k ∷ []) rest after offset (i + 1)
            (omega (arith, at, length-append front (k ∷ [])))
            (omega (arith, off, length-append gap (k ∷ []))) (simp (append_assoc) refl)))
