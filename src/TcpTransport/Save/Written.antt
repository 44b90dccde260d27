-- ===== src/TcpTransport/Save/Written.antt =====
-- What ConnectionAccepted of TcpTransport.c writes to the disk.
use uefi_toolkit_pkg.Base.{
  ℕ, ◌+◌, ◌^◌, ◌≤◌, ◌<◌, ◌≡◌, refl, ◌∙◌, Bool, true, false, List, [], ◌∷◌, ◌++◌, map, Option, none,
  some, All, Bytes, length, replicate, Status, efi_error,
}
use uefi_toolkit_pkg.TcpTransport.Pool.{Pointer, at, Pool, read_mem, read_mem_lem}
use uefi_toolkit_pkg.TcpTransport.Receive.{
  rx_fragment_size, Fragment, filled, Stop, receive_failed, transfer_failed, Rx, on_stop,
  tcp_data_receive,
}
use uefi_toolkit_pkg.TcpTransport.Receive.Rounds.{holding, joined}
use uefi_toolkit_pkg.TcpTransport.Receive.Appends.{Short, tcp_data_receive-Kept}
use uefi_toolkit_pkg.TcpTransport.Save.{
  Shell, delete_old, write_opened, save_file_to_disk, receive_and_save, connection_accepted,
}

stop_buffer :
    {D : Type 0} (shell : Shell D) (disk : D) (stop : Stop) (pre : Pool) (bytes : Bytes) (free : ℕ)
    → let rx = (on_stop stop (holding pre bytes free)).1 in
      save_file_to_disk shell rx.buffer_size rx.buffer rx.pool disk
      ≡ save_file_to_disk shell
          (length bytes)
          (at (length pre))
          (pre ++ some (bytes ++ replicate free 0) ∷ [])
          disk
stop_buffer shell disk (receive_failed e) pre bytes free = refl
stop_buffer shell disk (transfer_failed e) pre bytes free = refl

save_steps :
    {D : Type 0} (shell : Shell D) (n : ℕ) (ptr : Pointer) (pool : Pool) (disk opened : D)
    (st : Status) (bytes : Bytes)
    → shell.open_file (delete_old shell disk) ≡ (st, opened)
    → efi_error st ≡ false
    → read_mem ptr n pool ≡ some bytes
    → efi_error (shell.write_file bytes opened).0 ≡ false
    → save_file_to_disk shell n ptr pool disk
      ≡ some (pool, shell.close_file (shell.write_file bytes opened).1)
unfolding save_file_to_disk write_opened
save_steps shell n ptr pool disk opened st bytes file fine got written =
    rw (file, fine, got, written) refl

pub receive_steps :
    {D : Type 0} (shell : Shell D) (size : ℕ) (can : ℕ → Bool) (fs : List Fragment) (stop : Stop)
    (pool : Pool) (disk : D) (st acc op : Status) (rx : Rx)
    → efi_error acc ≡ false
    → efi_error op ≡ false
    → tcp_data_receive size can fs stop pool ≡ some (st, rx)
    → connection_accepted shell acc op size can fs stop pool disk
      ≡ save_file_to_disk shell rx.buffer_size rx.buffer rx.pool disk
unfolding connection_accepted receive_and_save
receive_steps shell size can fs stop pool disk st acc op rx accepted opened received =
    rw (accepted, opened, received) refl

-- A connection of which `bytes` were saved: FragmentBuffer and the data are still allocated.
pub record Saved {D : Type 0} (pool : Pool) (bytes : Bytes) (disk : D) (r : Option (Pool × D))
    : Type 0 where
  pub gone : ℕ
  pub free : ℕ
  pub returns :
      r
      ≡ some (
        ((pool ++ some (replicate rx_fragment_size 0) ∷ []) ++ replicate gone none)
            ++ some (bytes ++ replicate free 0) ∷ [],
        disk,
      )

-- When the connection is accepted, the pool has room, the first fragment is not empty, none is
-- larger than RX_FRAGMENT_SIZE, SIZE_8MB is not smaller than that and no sum wraps, and the file can
-- be opened and written, the bytes of all fragments in order are what ConnectionAccepted writes to
-- Download.bin, once, after the old file was deleted, and the file is closed. FragmentBuffer and
-- the data are then still allocated, and nothing else of what it allocated is.
pub connection_accepted-Saved :
    {D : Type 0} (shell : Shell D) (disk opened : D) (st acc op : Status) (size : ℕ)
    (can : ℕ → Bool) (b : Bytes) (bs : List Bytes) (stop : Stop) (pool : Pool)
    → efi_error acc ≡ false
    → efi_error op ≡ false
    → ((n : ℕ) → can n ≡ true)
    → rx_fragment_size ≤ size
    → All Short (b ∷ bs)
    → 0 < length b
    → length (joined (b ∷ bs)) + size < 2 ^ 64
    → shell.open_file (delete_old shell disk) ≡ (st, opened)
    → efi_error st ≡ false
    → efi_error (shell.write_file (joined (b ∷ bs)) opened).0 ≡ false
    → Saved pool
        (joined (b ∷ bs))
        (shell.close_file (shell.write_file (joined (b ∷ bs)) opened).1)
        (connection_accepted shell acc op size can (map filled (b ∷ bs)) stop pool disk)
connection_accepted-Saved shell disk opened st acc op size can b bs stop pool accepted open_fine
      room large short some_byte bound file fine written =
    let bytes = joined (b ∷ bs) in
    let h = tcp_data_receive-Kept size can stop room large b bs pool short some_byte bound in
    let pre = (pool ++ some (replicate rx_fragment_size 0) ∷ []) ++ replicate h.gone none in
    let zeros = replicate h.free 0 in
    record {
      gone = h.gone;
      free = h.free;
      returns =
          receive_steps shell size can (map filled (b ∷ bs)) stop pool disk _ acc op _ accepted
            open_fine h.returns
          ∙ stop_buffer shell disk stop pre bytes h.free
          ∙ save_steps shell (length bytes) (at (length pre)) (pre ++ some (bytes ++ zeros) ∷ [])
              disk opened st bytes file fine (read_mem_lem pre (bytes ++ zeros) [] bytes zeros refl)
              written;
    }
