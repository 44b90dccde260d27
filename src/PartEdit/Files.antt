-- ===== src/PartEdit/Files.antt =====
-- SaveFileToDisk and ReadFileFromDisk of PartEdit.c. The shell's file functions are a parameter,
-- over a type of file systems.
use uefi_toolkit_pkg.Base.{
  ℕ, Bool, List, [], Bytes, if◌then◌else◌, Status, success, error, efi_error, out_of_resources,
}

-- ShellFileExists, ShellDeleteFileByName, ShellOpenFileByName for writing and reading, and, of the
-- open file, ShellWriteFile, ShellCloseFile, ShellGetFileSize and ShellReadFile.
pub record Shell (F : Type 0) : Type 0 where
  pub exists_file : List ℕ → F → Bool
  pub delete_file : List ℕ → F → F
  pub create_file : List ℕ → F → Status × F
  pub open_file : List ℕ → F → Status × F
  pub write_file : Bytes → F → Status × F
  pub close_file : F → F
  pub file_size : F → Status × ℕ
  pub read_file : ℕ → F → Status × Bytes

module _ {F : Type 0} (shell : Shell F) where
  -- The file is closed after the write, whatever its status is.
  unfoldable pub write_and_close : Bytes → F → Status × F
  write_and_close buffer files =
      let written = shell.write_file buffer files in
      let closed = shell.close_file written.1 in
      if efi_error written.0 then (written.0, closed) else (success, closed)

  unfoldable pub save_file_to_disk : List ℕ → Bytes → F → Status × F
  save_file_to_disk name buffer files =
      let files' = if shell.exists_file name files then shell.delete_file name files else files in
      let opened = shell.create_file name files' in
      let saved = write_and_close buffer opened.1 in if efi_error opened.0 then opened else saved

  -- The status, the buffer, and the file system; `can` tells whether the pool has room.
  unfoldable pub read_opened : (ℕ → Bool) → F → Status × Bytes × F
  read_opened can files =
      let sized = shell.file_size files in
      let got = shell.read_file sized.1 files in
      let closed = shell.close_file files in
      if efi_error sized.0
      then (sized.0, [], closed)
      else if can sized.1
      then if efi_error got.0 then (got.0, [], closed) else (success, got.1, closed)
      else (error out_of_resources, [], closed)

  unfoldable pub read_file_from_disk : (ℕ → Bool) → List ℕ → F → Status × Bytes × F
  read_file_from_disk can name files =
      let opened = shell.open_file name files in
      let rest = read_opened can opened.1 in
      if efi_error opened.0 then (opened.0, [], opened.1) else rest
