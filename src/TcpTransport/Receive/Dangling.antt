-- ===== src/TcpTransport/Receive/Dangling.antt =====
-- TcpDataReceive of TcpTransport.c when the pool has no room for a larger block.
use uefi_toolkit_pkg.Base.{
  ℕ, ◌+◌, ◌-◌, ◌%◌, ◌^◌, ◌≤◌, ◌<◌, ◌≡◌, refl, ◌∙◌, Bool, true, false, List, [], ◌∷◌, ◌++◌, map,
  Option, none, some, arith, All, Bytes, length, length-append, replicate, ltb, leb, Bool-cases,
  inl, inr, Status, error, out_of_resources, get_or-append_self,
}
use uefi_toolkit_pkg.TcpTransport.Pool.{
  null, at, Pool, block, is_null, allocate_zero_pool, free_pool_lem,
}
use uefi_toolkit_pkg.TcpTransport.Receive.{
  rx_fragment_size, Fragment, filled, Stop, Rx, free_data, grow, make_room, receive_loop,
  tcp_data_receive,
}
use uefi_toolkit_pkg.TcpTransport.Receive.Rounds.{
  holding, empty, joined, make_room_enough, append_ready, make_room_first, round_steps,
  allocate_lem,
}
use uefi_toolkit_pkg.TcpTransport.Receive.Appends.{Short}

-- The call is out of memory, and *Buffer points to a block that was freed.
pub record Dangling (r : Option (Status × Rx)) : Type 0 where
  pub rx : Rx
  pub returns : r ≡ some (error out_of_resources, rx)
  pub some_buffer : is_null rx.buffer ≡ false
  pub some_size : 0 < rx.buffer_size
  pub freed : block rx.buffer rx.pool ≡ none

free_data_lem :
    (rx : Rx) (pre : Pool) (b : Bytes) (post : Pool)
    → rx.data_buffer ≡ at (length pre)
    → rx.pool ≡ pre ++ some b ∷ post
    → free_data rx ≡ some (record rx { pool = pre ++ none ∷ post })
unfolding free_data
free_data_lem rx pre b post place whole = rw (place, whole, free_pool_lem pre b post) refl

deny_steps :
    (size : ℕ) (can : ℕ → Bool) (b : Bytes) (fs : List Fragment) (stop : Stop) (n : ℕ)
    (rx freed : Rx)
    → ltb rx.allocate_length ((rx.total_data_number + length b) % 2 ^ 64) ≡ true
    → (rx.allocate_length + size) % 2 ^ 64 ≡ n
    → can n ≡ false
    → free_data (record rx { allocate_length = n; buffer_temp = null }) ≡ some freed
    → receive_loop size can (filled b ∷ fs) stop rx ≡ some (error out_of_resources, freed)
unfolding receive_loop make_room grow allocate_zero_pool
deny_steps size can b fs stop n rx freed over sum denied gone = rw (over, sum, denied, gone) refl

module _ (size : ℕ) (can : ℕ → Bool) (stop : Stop) (denied : (n : ℕ) → size < n → can n ≡ false)
    (large : rx_fragment_size ≤ size) (small : size + size < 2 ^ 64) where
  receive_loop-Dangling :
      (bs : List Bytes) (pre : Pool) (bytes : Bytes) (free : ℕ)
      → All Short bs
      → 0 < length bytes
      → length bytes + free ≡ size
      → size < length bytes + length (joined bs)
      → Dangling (receive_loop size can (map filled bs) stop (holding pre bytes free))
  receive_loop-Dangling [] pre bytes free short some_byte whole over = absurd (omega (arith))
  receive_loop-Dangling (b ∷ bs) pre bytes free short some_byte whole over =
      let parts = length-append b (joined bs) in
      let total = length-append bytes b in
      elim (Bool-cases (leb (length b) free)) [
        | inl fits ↦
            let fits' : length b ≤ free = ground (arith, fits) in
            let h =
              receive_loop-Dangling bs pre (bytes ++ b) (free - length b) short.1
                (omega (arith, total)) (omega (arith, total)) (omega (arith, total, parts)) in
            let round =
              round_steps size can b (map filled bs) stop (holding pre bytes free) _ _
                (make_room_enough size can (length b) pre bytes free fits' (omega arith))
                (append_ready _ _ _ pre bytes b free fits' (omega arith)) in
            record {
              rx = h.rx;
              returns = round ∙ h.returns;
              some_buffer = h.some_buffer;
              some_size = h.some_size;
              freed = h.freed;
            }
        | inr full ↦
            let n = length bytes + free + size in
            let sum : n % 2 ^ 64 ≡ n = omega arith in
            let old = bytes ++ replicate free 0 in
            let rx = record (holding pre bytes free) { allocate_length = n; buffer_temp = null } in
            record {
              rx = record rx { pool = pre ++ none ∷ [] };
              returns =
                  deny_steps size can b (map filled bs) stop n (holding pre bytes free) _
                    (ground (arith, full, short.0, whole)) sum (denied n (omega (arith, some_byte)))
                    (free_data_lem rx pre old [] refl refl);
              some_buffer = refl;
              some_size = some_byte;
              freed = get_or-append_self pre [] none none;
            }
      ]

  -- When the pool has room for FragmentBuffer and one block of SIZE_8MB but no larger one, and more
  -- than SIZE_8MB bytes come, in fragments that RX_FRAGMENT_SIZE holds and of which the first is not
  -- empty, TcpDataReceive returns EFI_OUT_OF_RESOURCES and leaves in *Buffer, with a size above 0,
  -- the pointer to the block that it freed.
  pub tcp_data_receive-Dangling :
      (b : Bytes) (bs : List Bytes) (pool : Pool)
      → can rx_fragment_size ≡ true
      → can size ≡ true
      → All Short (b ∷ bs)
      → 0 < length b
      → size < length (joined (b ∷ bs))
      → Dangling (tcp_data_receive size can (map filled (b ∷ bs)) stop pool)
  unfolding tcp_data_receive
  tcp_data_receive-Dangling b bs pool room room' short some_byte over =
      let parts = length-append b (joined bs) in
      let pre = pool ++ some (replicate rx_fragment_size 0) ∷ [] in
      let fits : length b ≤ size = omega (arith, short.0) in
      let h =
        receive_loop-Dangling bs pre b (size - length b) short.1 some_byte (omega arith)
          (omega (arith, parts)) in
      let round =
        round_steps size can b (map filled bs) stop (empty pre) _ _
          (make_room_first size can (length b) pre room' some_byte (omega arith) (omega arith))
          (append_ready _ _ _ pre [] b size fits (omega arith)) in
      rw (allocate_lem can rx_fragment_size pool room) (record {
        rx = h.rx;
        returns = round ∙ h.returns;
        some_buffer = h.some_buffer;
        some_size = h.some_size;
        freed = h.freed;
      })
