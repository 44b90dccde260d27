-- ===== src/TcpTransport/Receive.antt =====
-- TcpDataReceive of TcpTransport.c. What the connection delivers is a list of fragments with the
-- error that ends it; SIZE_8MB and the room of the pool are parameters.
pub mod Rounds
pub mod Appends
pub mod Dangling
use uefi_toolkit_pkg.Base.{
  ℕ, ◌+◌, ◌%◌, ◌^◌, Bool, true, false, List, [], ◌∷◌, ◌++◌, Option, none, some, and_then, Bytes,
  length, ltb, if◌then◌else◌, Status, success, error, EfiError, out_of_resources,
}
use uefi_toolkit_pkg.TcpTransport.Pool.{
  Pointer, null, wild, at, Pool, is_null, allocate_zero_pool, free_pool, read_mem, copy_mem,
}

abbrev pub rx_fragment_size : ℕ
rx_fragment_size = 2048

-- The fragment of a completed Receive: its bytes, or its length when Fragment.Bulk is NULL.
pub data Fragment : Type 0 where
  filled : Bytes → Fragment
  no_bulk : ℕ → Fragment

abbrev pub fragment_len : Fragment → ℕ
fragment_len (filled bytes) = length bytes
fragment_len (no_bulk n) = n

-- How the loop ends: Receive fails, or the token completes with an error.
pub data Stop : Type 0 where
  receive_failed transfer_failed : EfiError → Stop

-- The locals of the loop, *BufferSize and *Buffer, the pool, and whether the event of the token is
-- open.
pub record Rx : Type 0 where
  pub data_buffer : Pointer
  pub buffer_temp : Pointer
  pub total_data_number : ℕ
  pub allocate_length : ℕ
  pub buffer_size : ℕ
  pub buffer : Pointer
  pub pool : Pool
  pub event_open : Bool

-- The old data in the new block, and the old block freed.
unfoldable pub move_data : Rx → Option Rx
move_data rx =
    if is_null rx.data_buffer
    then some rx
    else and_then (read_mem rx.data_buffer rx.total_data_number rx.pool) (λ old.
      and_then (copy_mem rx.buffer_temp 0 old rx.pool) (λ copied.
        and_then (free_pool rx.data_buffer copied) (λ freed. some (record rx { pool = freed }))))

unfoldable pub free_data : Rx → Option Rx
free_data rx =
    if is_null rx.data_buffer
    then some rx
    else and_then (free_pool rx.data_buffer rx.pool) (λ freed. some (record rx { pool = freed }))

-- The larger block; `false` means that the pool has no room for it.
unfoldable pub grow : ℕ → (ℕ → Bool) → Rx → Option (Bool × Rx)
grow size_8mb can rx =
    let n = (rx.allocate_length + size_8mb) % 2 ^ 64 in
    let allocated = allocate_zero_pool can n rx.pool in
    let rx' = record rx { allocate_length = n; buffer_temp = allocated.0; pool = allocated.1 } in
    if is_null allocated.0
    then and_then (free_data rx') (λ r. some (false, r))
    else and_then (move_data rx') (λ r. some (true, r))

unfoldable pub make_room : ℕ → (ℕ → Bool) → ℕ → Rx → Option (Bool × Rx)
make_room size_8mb can len rx =
    if ltb rx.allocate_length ((rx.total_data_number + len) % 2 ^ 64)
    then grow size_8mb can rx
    else some (true, rx)

-- CopyMem of the fragment.
unfoldable pub copy_fragment : Fragment → Rx → Option Pool
copy_fragment (filled bytes) rx = copy_mem rx.buffer_temp rx.total_data_number bytes rx.pool
copy_fragment (no_bulk n) rx = some rx.pool

unfoldable pub append_fragment : Fragment → Rx → Option Rx
append_fragment f rx =
    let total = (rx.total_data_number + fragment_len f) % 2 ^ 64 in
    and_then (copy_fragment f rx) (λ pool. some (record rx {
      pool = pool;
      total_data_number = total;
      data_buffer = rx.buffer_temp;
      buffer = rx.buffer_temp;
      buffer_size = total;
    }))

abbrev pub on_stop : Stop → Rx → Status × Rx
on_stop (receive_failed e) rx = (error e, rx)
on_stop (transfer_failed e) rx = (error e, record rx { event_open = false })

-- The while loop, which only an error ends.
unfoldable pub receive_loop : ℕ → (ℕ → Bool) → List Fragment → Stop → Rx → Option (Status × Rx)
receive_loop size_8mb can [] stop rx = some (on_stop stop rx)
receive_loop size_8mb can (f ∷ fs) stop rx =
    and_then (make_room size_8mb can (fragment_len f) rx) (λ r.
      let rest = and_then (append_fragment f r.1) (receive_loop size_8mb can fs stop) in
      if r.0 then rest else some (error out_of_resources, r.1))

-- TcpDataReceive: the status and the state at its return.
unfoldable pub tcp_data_receive :
    ℕ → (ℕ → Bool) → List Fragment → Stop → Pool → Option (Status × Rx)
tcp_data_receive size_8mb can fs stop pool =
    let allocated = allocate_zero_pool can rx_fragment_size pool in
    let rx : Rx = record {
      data_buffer = null;
      buffer_temp = wild;
      total_data_number = 0;
      allocate_length = 0;
      buffer_size = 0;
      buffer = null;
      pool = allocated.1;
      event_open = true;
    } in
    if is_null allocated.0
    then some (error out_of_resources, rx)
    else receive_loop size_8mb can fs stop rx
