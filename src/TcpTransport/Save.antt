-- ===== src/TcpTransport/Save.antt =====
-- SaveFileToDisk and ConnectionAccepted of TcpTransport.c. The shell's file functions are a
-- parameter, over a type of disks.
pub mod Written
pub mod Freed
use uefi_toolkit_pkg.Base.{
  ℕ, Bool, true, false, List, Option, none, some, and_then, Bytes, if◌then◌else◌, Status, success,
  error, EfiError, efi_error,
}
use uefi_toolkit_pkg.TcpTransport.Pool.{Pointer, Pool, free_pool, read_mem}
use uefi_toolkit_pkg.TcpTransport.Receive.{Fragment, Stop, Rx, tcp_data_receive}

-- ShellFileExists, ShellDeleteFileByName, ShellOpenFileByName, ShellWriteFile and ShellCloseFile for
-- Download.bin.
pub record Shell (D : Type 0) : Type 0 where
  pub exists_file : D → Bool
  pub delete_file : D → D
  pub open_file : D → Status × D
  pub write_file : Bytes → D → Status × D
  pub close_file : D → D

unfoldable pub delete_old : {D : Type 0} → Shell D → D → D
delete_old shell disk = if shell.exists_file disk then shell.delete_file disk else disk

-- The write and what follows it.
unfoldable pub write_opened : {D : Type 0} → Shell D → ℕ → Pointer → Pool → D → Option (Pool × D)
write_opened shell buffer_size buffer pool disk =
    and_then (read_mem buffer buffer_size pool) (λ bytes.
      let written = shell.write_file bytes disk in
      let closed = shell.close_file written.1 in
      if efi_error written.0
      then and_then (free_pool buffer pool) (λ freed. some (freed, closed))
      else some (pool, closed))

unfoldable pub save_file_to_disk :
    {D : Type 0} → Shell D → ℕ → Pointer → Pool → D → Option (Pool × D)
save_file_to_disk shell buffer_size buffer pool disk =
    let opened = shell.open_file (delete_old shell disk) in
    if efi_error opened.0
    then and_then (free_pool buffer pool) (λ freed. some (freed, opened.1))
    else write_opened shell buffer_size buffer pool opened.1

-- TcpDataReceive and SaveFileToDisk, one after the other.
unfoldable pub receive_and_save :
    {D : Type 0} → Shell D → ℕ → (ℕ → Bool) → List Fragment → Stop → Pool → D → Option (Pool × D)
receive_and_save shell size_8mb can fs stop pool disk =
    and_then (tcp_data_receive size_8mb can fs stop pool)
      (λ r. save_file_to_disk shell r.1.buffer_size r.1.buffer r.1.pool disk)

-- ConnectionAccepted, with the status of the accept token and that of OpenProtocol.
unfoldable pub connection_accepted :
    {D : Type 0}
    → Shell D
    → Status
    → Status
    → ℕ
    → (ℕ → Bool)
    → List Fragment
    → Stop
    → Pool
    → D
    → Option (Pool × D)
connection_accepted shell accepted opened size_8mb can fs stop pool disk =
    if efi_error accepted
    then some (pool, disk)
    else if efi_error opened
    then some (pool, disk)
    else receive_and_save shell size_8mb can fs stop pool disk
