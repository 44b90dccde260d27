-- ===== src/TcpTransport/Receive/Appends.antt =====
-- TcpDataReceive of TcpTransport.c keeps what it receives in one block.
use uefi_toolkit_pkg.Base.{
  ℕ, suc, ◌+◌, ◌-◌, ◌^◌, ◌≤◌, ◌<◌, ◌≡◌, sym, ap, ap₂, ◌∙◌, Bool, true, List, [], ◌∷◌, ◌++◌,
  append_assoc, append-nil, map, Option, none, some, arith, All, Bytes, length, length-append,
  replicate, leb, Bool-cases, inl, inr, Status,
}
use uefi_toolkit_pkg.TcpTransport.Pool.{Pool}
use uefi_toolkit_pkg.TcpTransport.Receive.{
  rx_fragment_size, filled, Stop, Rx, on_stop, receive_loop, tcp_data_receive,
}
use uefi_toolkit_pkg.TcpTransport.Receive.Rounds.{
  holding, empty, joined, make_room_enough, append_ready, make_room_first, make_room_next,
  round_steps, allocate_lem,
}

-- The loop keeps what was received: `gone` blocks were freed behind `pre`.
pub record Kept (pre : Pool) (bytes : Bytes) (stop : Stop) (r : Option (Status × Rx)) : Type 0 where
  pub gone : ℕ
  pub free : ℕ
  pub returns : r ≡ some (on_stop stop (holding (pre ++ replicate gone none) bytes free))

Kept-round :
    (pre : Pool) (bytes b : Bytes) (bs : List Bytes) (stop : Stop) (r r' : Option (Status × Rx))
    → r ≡ r'
    → Kept pre ((bytes ++ b) ++ joined bs) stop r'
    → Kept pre (bytes ++ (b ++ joined bs)) stop r
Kept-round pre bytes b bs stop r r' same h = record {
  gone = h.gone;
  free = h.free;
  returns =
      same
      ∙ h.returns
      ∙ ap (λ k. some (on_stop stop (holding (pre ++ replicate h.gone none) k h.free)))
          (append_assoc bytes b (joined bs));
}

Kept-freed :
    (pre : Pool) (bytes : Bytes) (stop : Stop) (r : Option (Status × Rx))
    → Kept (pre ++ none ∷ []) bytes stop r
    → Kept pre bytes stop r
Kept-freed pre bytes stop r h = record {
  gone = suc h.gone;
  free = h.free;
  returns =
      h.returns
      ∙ ap (λ k. some (on_stop stop (holding k bytes h.free)))
          (append_assoc pre (none ∷ []) (replicate h.gone none));
}

-- A fragment that RX_FRAGMENT_SIZE holds.
abbrev pub Short : Bytes → Type 0
Short b = length b ≤ rx_fragment_size

module _ (size : ℕ) (can : ℕ → Bool) (stop : Stop) (room : (n : ℕ) → can n ≡ true)
    (large : rx_fragment_size ≤ size) where
  receive_loop-Kept :
      (bs : List Bytes) (pre : Pool) (bytes : Bytes) (free : ℕ)
      → All Short bs
      → length bytes + free < 2 ^ 64
      → length bytes + length (joined bs) + size < 2 ^ 64
      → Kept pre
          (bytes ++ joined bs)
          stop
          (receive_loop size can (map filled bs) stop (holding pre bytes free))
  unfolding receive_loop
  receive_loop-Kept [] pre bytes free short small bound = record {
    gone = 0;
    free = free;
    returns =
        ap₂ (λ p k. some (on_stop stop (holding p k free))) (sym (append-nil pre))
          (sym (append-nil bytes));
  }
  receive_loop-Kept (b ∷ bs) pre bytes free short small bound =
      let parts = length-append b (joined bs) in
      let total = length-append bytes b in
      elim (Bool-cases (leb (length b) free)) [
        | inl fits ↦
            let fits' : length b ≤ free = ground (arith, fits) in
            Kept-round pre bytes b bs stop _ _
              (round_steps size can b (map filled bs) stop _ _ _
                (make_room_enough size can (length b) pre bytes free fits' small)
                (append_ready _ _ _ pre bytes b free fits' small))
              (receive_loop-Kept bs pre (bytes ++ b) (free - length b) short.1
                (omega (arith, total)) (omega (arith, total, parts)))
        | inr over ↦
            let over' : free < length b = ground (arith, over) in
            let n : length bytes + (free + size) < 2 ^ 64 = omega (arith, parts) in
            let fits : length b ≤ free + size = omega (arith, short.0) in
            Kept-freed pre (bytes ++ joined (b ∷ bs)) stop _ (
              Kept-round (pre ++ none ∷ []) bytes b bs stop _ _
                (round_steps size can b (map filled bs) stop _ _ _
                  (make_room_next size can (length b) pre bytes free (room _) over'
                    (omega (arith, parts)) n)
                  (append_ready _ _ _ (pre ++ none ∷ []) bytes b (free + size) fits n))
                (receive_loop-Kept bs (pre ++ none ∷ []) (bytes ++ b) (free + size - length b)
                  short.1 (omega (arith, total)) (omega (arith, total, parts))))
      ]

  -- When the pool has room, a non-empty first fragment came, no fragment is larger than
  -- RX_FRAGMENT_SIZE, and SIZE_8MB is not smaller than that and no sum wraps, TcpDataReceive
  -- accesses only its own blocks. It returns the error that ended the transfer; *Buffer is a block
  -- that starts with the bytes of all fragments in order, and *BufferSize is their number. Of the
  -- blocks it allocated, only this one and FragmentBuffer are left.
  pub tcp_data_receive-Kept :
      (b : Bytes) (bs : List Bytes) (pool : Pool)
      → All Short (b ∷ bs)
      → 0 < length b
      → length (joined (b ∷ bs)) + size < 2 ^ 64
      → Kept
          (pool ++ some (replicate rx_fragment_size 0) ∷ [])
          (joined (b ∷ bs))
          stop
          (tcp_data_receive size can (map filled (b ∷ bs)) stop pool)
  unfolding tcp_data_receive
  tcp_data_receive-Kept b bs pool short some_byte bound =
      let parts = length-append b (joined bs) in
      let pre = pool ++ some (replicate rx_fragment_size 0) ∷ [] in
      let fits : length b ≤ size = omega (arith, short.0) in
      rw (allocate_lem can rx_fragment_size pool (room _)) (
        Kept-round pre [] b bs stop _ _
          (round_steps size can b (map filled bs) stop (empty pre) _ _
            (make_room_first size can (length b) pre (room _) some_byte (omega (arith, parts))
              (omega arith))
            (append_ready _ _ _ pre [] b size fits (omega arith)))
          (receive_loop-Kept bs pre b (size - length b) short.1 (omega arith)
            (omega (arith, parts))))
