-- ===== src/TcpTransport/Save/Freed.antt =====
-- ConnectionAccepted of TcpTransport.c after the pool ran out of room.
use uefi_toolkit_pkg.Base.{
  ℕ, zero, suc, ◌+◌, ◌^◌, ◌≤◌, ◌<◌, ◌≡◌, refl, ◌∙◌, Bool, true, false, List, ◌∷◌, map, none, arith,
  All, Bytes, length, Bool-cases, inl, inr, Status, efi_error,
}
use uefi_toolkit_pkg.TcpTransport.Pool.{Pointer, Pool, block, free_pool, read_mem}
use uefi_toolkit_pkg.TcpTransport.Receive.{rx_fragment_size, filled, Stop}
use uefi_toolkit_pkg.TcpTransport.Receive.Rounds.{joined}
use uefi_toolkit_pkg.TcpTransport.Receive.Appends.{Short}
use uefi_toolkit_pkg.TcpTransport.Receive.Dangling.{tcp_data_receive-Dangling}
use uefi_toolkit_pkg.TcpTransport.Save.{
  Shell, delete_old, write_opened, save_file_to_disk, connection_accepted,
}
use uefi_toolkit_pkg.TcpTransport.Save.Written.{receive_steps}

free_pool-none : (ptr : Pointer) (pool : Pool) → block ptr pool ≡ none → free_pool ptr pool ≡ none
unfolding free_pool
free_pool-none ptr pool gone = rw gone refl

read_mem-none :
    (ptr : Pointer) (n : ℕ) (pool : Pool)
    → 0 < n
    → block ptr pool ≡ none
    → read_mem ptr n pool ≡ none
unfolding read_mem
read_mem-none ptr zero pool some_size gone = absurd (omega arith)
read_mem-none ptr (suc n) pool some_size gone = rw gone refl

save-none :
    {D : Type 0} (shell : Shell D) (n : ℕ) (ptr : Pointer) (pool : Pool) (disk : D)
    → 0 < n
    → block ptr pool ≡ none
    → save_file_to_disk shell n ptr pool disk ≡ none
unfolding save_file_to_disk write_opened
save-none shell n ptr pool disk some_size gone =
    elim (Bool-cases (efi_error (shell.open_file (delete_old shell disk)).0)) [
      | inl failed ↦ rw (failed, free_pool-none ptr pool gone) refl
      | inr opened ↦ rw (opened, read_mem-none ptr n pool some_size gone) refl
    ]

-- When a connection is accepted, the pool has room for FragmentBuffer and one block of SIZE_8MB but
-- no larger one, and more than SIZE_8MB bytes come, in fragments that RX_FRAGMENT_SIZE holds and of
-- which the first is not empty, ConnectionAccepted accesses freed memory, whatever the shell's
-- functions do: it writes the freed block to the disk, or frees it again.
pub connection_accepted-none :
    {D : Type 0} (shell : Shell D) (disk : D) (acc op : Status) (size : ℕ) (can : ℕ → Bool)
    (b : Bytes) (bs : List Bytes) (stop : Stop) (pool : Pool)
    → efi_error acc ≡ false
    → efi_error op ≡ false
    → can rx_fragment_size ≡ true
    → can size ≡ true
    → ((n : ℕ) → size < n → can n ≡ false)
    → rx_fragment_size ≤ size
    → size + size < 2 ^ 64
    → All Short (b ∷ bs)
    → 0 < length b
    → size < length (joined (b ∷ bs))
    → connection_accepted shell acc op size can (map filled (b ∷ bs)) stop pool disk ≡ none
connection_accepted-none shell disk acc op size can b bs stop pool accepted opened room room' denied
      large small short some_byte over =
    let h =
      tcp_data_receive-Dangling size can stop denied large small b bs pool room room' short
        some_byte over in
    receive_steps shell size can (map filled (b ∷ bs)) stop pool disk _ acc op h.rx accepted opened
      h.returns
    ∙ save-none shell h.rx.buffer_size h.rx.buffer h.rx.pool disk h.some_size h.freed
