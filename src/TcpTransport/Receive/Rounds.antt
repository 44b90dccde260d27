-- ===== src/TcpTransport/Receive/Rounds.antt =====
-- The rounds of TcpDataReceive of TcpTransport.c, as equations between states.
use uefi_toolkit_pkg.Base.{
  ℕ, zero, ◌+◌, ◌-◌, ◌%◌, ◌^◌, ◌≤◌, ◌<◌, ◌≡◌, refl, sym, ap, ap₂, ◌∙◌, Bool, true, false, List, [],
  ◌∷◌, ◌++◌, append_assoc, none, some, arith, Bytes, length, length-append, length-replicate, drop,
  drop-replicate, replicate, ltb,
}
use uefi_toolkit_pkg.TcpTransport.Pool.{
  Pointer, null, wild, at, Pool, is_null, allocate_zero_pool, free_pool, read_mem, copy_mem,
  free_pool_lem, read_mem_lem, copy_mem_lem,
}
use uefi_toolkit_pkg.TcpTransport.Receive.{
  Fragment, filled, Stop, Rx, move_data, grow, make_room, copy_fragment, append_fragment,
  receive_loop,
}

-- The next fragment goes behind `bytes`, into the last block of the pool, which has `free` bytes
-- more.
abbrev pub ready : Pointer → ℕ → Pointer → Pool → Bytes → ℕ → Rx
ready old_data size out pre bytes free = record {
  data_buffer = old_data;
  buffer_temp = at (length pre);
  total_data_number = length bytes;
  allocate_length = length bytes + free;
  buffer_size = size;
  buffer = out;
  pool = pre ++ some (bytes ++ replicate free 0) ∷ [];
  event_open = true;
}

-- `bytes` were received.
abbrev pub holding : Pool → Bytes → ℕ → Rx
holding pre bytes free = ready (at (length pre)) (length bytes) (at (length pre)) pre bytes free

-- Nothing was received yet.
abbrev pub empty : Pool → Rx
empty pool = record {
  data_buffer = null;
  buffer_temp = wild;
  total_data_number = 0;
  allocate_length = 0;
  buffer_size = 0;
  buffer = null;
  pool = pool;
  event_open = true;
}

abbrev pub joined : List Bytes → Bytes
joined [] = []
joined (b ∷ bs) = b ++ joined bs

pub make_room_enough :
    (size : ℕ) (can : ℕ → Bool) (len : ℕ) (pre : Pool) (bytes : Bytes) (free : ℕ)
    → len ≤ free
    → length bytes + free < 2 ^ 64
    → make_room size can len (holding pre bytes free) ≡ some (true, holding pre bytes free)
unfolding make_room
make_room_enough size can len pre bytes free fits small =
    let room : ltb (length bytes + free) ((length bytes + len) % 2 ^ 64) ≡ false = ground arith in
    rw room refl

append_steps :
    (old_data out temp : Pointer) (size total next alloc : ℕ) (pool copied : Pool) (b : Bytes)
    → copy_mem temp total b pool ≡ some copied
    → (total + length b) % 2 ^ 64 ≡ next
    → append_fragment (filled b) (record {
      data_buffer = old_data;
      buffer_temp = temp;
      total_data_number = total;
      allocate_length = alloc;
      buffer_size = size;
      buffer = out;
      pool = pool;
      event_open = true;
    })
      ≡ some (record {
        data_buffer = temp;
        buffer_temp = temp;
        total_data_number = next;
        allocate_length = alloc;
        buffer_size = next;
        buffer = temp;
        pool = copied;
        event_open = true;
      })
unfolding append_fragment copy_fragment
append_steps old_data out temp size total next alloc pool copied b copy sum = rw (copy, sum) refl

pub append_ready :
    (old_data out : Pointer) (size : ℕ) (pre : Pool) (bytes b : Bytes) (free : ℕ)
    → length b ≤ free
    → length bytes + free < 2 ^ 64
    → append_fragment (filled b) (ready old_data size out pre bytes free)
      ≡ some (holding pre (bytes ++ b) (free - length b))
append_ready old_data out size pre bytes b free fits small =
    let total = length-append bytes b in
    let copied =
      copy_mem_lem pre (bytes ++ replicate free 0) [] bytes b (replicate free 0) refl
        (omega (arith, length-replicate free zero)) in
    let alloc : length bytes + free ≡ length (bytes ++ b) + (free - length b) =
      omega (arith, total) in
    append_steps old_data out (at (length pre)) size (length bytes) (length (bytes ++ b))
      (length bytes + free) (pre ++ some (bytes ++ replicate free 0) ∷ [])
      (pre ++ some ((bytes ++ b) ++ replicate (free - length b) 0) ∷ []) b
      (copied
        ∙ ap (λ k. some (pre ++ some ((bytes ++ b) ++ k) ∷ [])) (drop-replicate (length b) free 0))
      (omega (arith, total))
    ∙ ap (λ k. some (record (holding pre (bytes ++ b) (free - length b)) { allocate_length = k }))
        alloc

grow_steps :
    (size : ℕ) (can : ℕ → Bool) (len n : ℕ) (rx : Rx) (ptr : Pointer) (pool : Pool) (moved : Rx)
    → ltb rx.allocate_length ((rx.total_data_number + len) % 2 ^ 64) ≡ true
    → (rx.allocate_length + size) % 2 ^ 64 ≡ n
    → allocate_zero_pool can n rx.pool ≡ (ptr, pool)
    → is_null ptr ≡ false
    → move_data (record rx { allocate_length = n; buffer_temp = ptr; pool = pool }) ≡ some moved
    → make_room size can len rx ≡ some (true, moved)
unfolding make_room grow
grow_steps size can len n rx ptr pool moved over sum given proper old_data =
    rw (over, sum, given, proper, old_data) refl

pub allocate_lem :
    (can : ℕ → Bool) (n : ℕ) (pool : Pool)
    → can n ≡ true
    → allocate_zero_pool can n pool ≡ (at (length pool), pool ++ some (replicate n 0) ∷ [])
unfolding allocate_zero_pool
allocate_lem can n pool fits = rw fits refl

move_steps :
    (rx : Rx) (old : Bytes) (copied freed : Pool)
    → is_null rx.data_buffer ≡ false
    → read_mem rx.data_buffer rx.total_data_number rx.pool ≡ some old
    → copy_mem rx.buffer_temp 0 old rx.pool ≡ some copied
    → free_pool rx.data_buffer copied ≡ some freed
    → move_data rx ≡ some (record rx { pool = freed })
unfolding move_data
move_steps rx old copied freed proper got copy gone = rw (proper, got, copy, gone) refl

-- The first block.
pub make_room_first :
    (size : ℕ) (can : ℕ → Bool) (len : ℕ) (pool : Pool)
    → can size ≡ true
    → 0 < len
    → len < 2 ^ 64
    → size < 2 ^ 64
    → make_room size can len (empty pool) ≡ some (true, ready null 0 null pool [] size)
unfolding move_data
make_room_first size can len pool fits some_len small_len small =
    grow_steps size can len size (empty pool) (at (length pool))
      (pool ++ some (replicate size 0) ∷ []) (ready null 0 null pool [] size) (ground arith)
      (omega arith) (allocate_lem can size pool fits) refl
      (let whole : size ≡ 0 + size = omega arith in
        ap (λ n. some (record (ready null 0 null pool [] size) { allocate_length = n })) whole)

-- The next block: the old one is freed.
pub make_room_next :
    (size : ℕ) (can : ℕ → Bool) (len : ℕ) (pre : Pool) (bytes : Bytes) (free : ℕ)
    → can (length bytes + (free + size)) ≡ true
    → free < len
    → length bytes + len < 2 ^ 64
    → length bytes + (free + size) < 2 ^ 64
    → make_room size can len (holding pre bytes free)
      ≡ some (
        true,
        ready
            (at (length pre))
            (length bytes)
            (at (length pre))
            (pre ++ none ∷ [])
            bytes
            (free + size),
      )
make_room_next size can len pre bytes free fits over small_len small =
    let n = length bytes + (free + size) in
    let old = bytes ++ replicate free 0 in
    let front = pre ++ some old ∷ [] in
    let pool = front ++ some (replicate n 0) ∷ [] in
    let new = bytes ++ drop (length bytes) (replicate n 0) in
    let after_old : pool ≡ pre ++ some old ∷ some (replicate n 0) ∷ [] =
      append_assoc pre (some old ∷ []) _ in
    let after_copy : front ++ some new ∷ [] ≡ pre ++ some old ∷ some new ∷ [] =
      append_assoc pre (some old ∷ []) (some new ∷ []) in
    let rx : Rx = record (holding pre bytes free) {
      allocate_length = n;
      buffer_temp = at (length front);
      pool = pool;
    } in
    let got : read_mem (at (length pre)) (length bytes) pool ≡ some bytes =
      ap (read_mem (at (length pre)) (length bytes)) after_old
      ∙ read_mem_lem pre old (some (replicate n 0) ∷ []) bytes (replicate free 0) refl in
    let copied : copy_mem (at (length front)) 0 bytes pool ≡ some (front ++ some new ∷ []) =
      copy_mem_lem front (replicate n 0) [] [] bytes (replicate n 0) refl
        (omega (arith, length-replicate n zero)) in
    let freed : free_pool (at (length pre)) (front ++ some new ∷ [])
        ≡ some (pre ++ none ∷ some new ∷ []) =
      ap (free_pool (at (length pre))) after_copy ∙ free_pool_lem pre old (some new ∷ []) in
    let place : length front ≡ length (pre ++ none ∷ []) =
      length-append pre (some old ∷ []) ∙ sym (length-append pre (none ∷ [])) in
    let rest : n - length bytes ≡ free + size = omega arith in
    let block : pre ++ none ∷ some new ∷ []
        ≡ (pre ++ none ∷ []) ++ some (bytes ++ replicate (free + size) 0) ∷ [] =
      ap (λ k. pre ++ none ∷ some (bytes ++ k) ∷ [])
        (drop-replicate (length bytes) n 0 ∙ ap (λ k. replicate k 0) rest)
      ∙ sym (append_assoc pre (none ∷ []) (some (bytes ++ replicate (free + size) 0) ∷ [])) in
    let total : (length bytes + free + size) % 2 ^ 64 ≡ n = omega arith in
    grow_steps size can len n (holding pre bytes free) (at (length front)) pool _ (ground arith)
      total (allocate_lem can n front fits) refl
      (move_steps rx bytes (front ++ some new ∷ []) (pre ++ none ∷ some new ∷ []) refl got copied
          freed
        ∙ ap₂ (λ i p. some (record rx { buffer_temp = at i; pool = p })) place block)

pub round_steps :
    (size : ℕ) (can : ℕ → Bool) (b : Bytes) (fs : List Fragment) (stop : Stop) (rx grown next : Rx)
    → make_room size can (length b) rx ≡ some (true, grown)
    → append_fragment (filled b) grown ≡ some next
    → receive_loop size can (filled b ∷ fs) stop rx ≡ receive_loop size can fs stop next
unfolding receive_loop
round_steps size can b fs stop rx grown next room appended = rw (room, appended) refl
