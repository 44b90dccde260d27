-- ===== src/HexToBin/Files.antt =====
-- ReadFileFromDisk, SaveFileToDisk and ShellAppMain of Application/HexToBin/HexToBin.c. The calls of
-- ShellLib and the boot services are parameters; the model records the calls that change
-- something. A successful open sets FileHandle.
pub mod Balance
use uefi_toolkit_pkg.Base.{
  ℕ, zero, suc, ◌+◌, Bool, true, false, ◌||◌, not, List, [], ◌∷◌, ◌++◌, Option, none, some, Bytes,
  length, take, ◌==◌, if◌then◌else◌, Status, success, error, efi_error, out_of_resources,
  invalid_parameter, unsupported, codes, same_text,
}
use uefi_toolkit_pkg.HexToBin.Record.{
  Fault, Result, ok, unsupported_record, no_memory, fault, Image,
}
use uefi_toolkit_pkg.HexToBin.Convert.{process_intel_hex}

-- What the outside answers: each function is one call, by file name.
pub record Shell : Type 0 where
  pub file_exists : Bytes → Status
  pub open_file : Bytes → Status
  pub file_size : Bytes → Status × ℕ
  pub allocate_pool : ℕ → Status × Bool
  pub read_file : Bytes → ℕ → Status × Bytes
  pub write_file : Bytes → Bytes → Status

pub data Event : Type 0 where
  opened closed deleted : Bytes → Event
  wrote : Bytes → Bytes → Event
  allocated freed : Event

-- The status, the buffer handed out, and the calls.
unfoldable pub read_file_from_disk : Shell → Bytes → Status × Option Bytes × List Event
read_file_from_disk sh name =
    let open_status = sh.open_file name in
    let (size_status, file_size) = sh.file_size name in
    let (pool_status, got_buffer) = sh.allocate_pool file_size in
    let (read_status, content) = sh.read_file name file_size in
    if efi_error open_status
    then (open_status, none, [])
    else if efi_error size_status
    then (size_status, none, opened name ∷ closed name ∷ [])
    else if not got_buffer || efi_error pool_status
    then (
      error out_of_resources,
      none,
      opened name ∷ (if got_buffer then allocated ∷ closed name ∷ [] else closed name ∷ []),
    )
    else if efi_error read_status
    then (read_status, none, opened name ∷ allocated ∷ closed name ∷ freed ∷ [])
    else (success, some content, opened name ∷ allocated ∷ closed name ∷ [])

unfoldable pub save_file_to_disk : Shell → Bytes → Bytes → Status × List Event
save_file_to_disk sh name buffer =
    let before = if efi_error (sh.file_exists name) then [] else deleted name ∷ [] in
    let open_status = sh.open_file name in
    let write_status = sh.write_file name buffer in
    if efi_error open_status
    then (open_status, before)
    else if efi_error write_status
    then (write_status, before ++ opened name ∷ closed name ∷ [])
    else (success, before ++ opened name ∷ wrote name buffer ∷ closed name ∷ [])

-- How the application ends: a status, the 0 at its end, or undefined behaviour on the way.
pub data Exit : Type 0 where
  returned : Status → Exit
  fell_through : Exit
  undefined : Fault → Exit
  out_of_fuel : Exit

abbrev is_help : Bytes → Bool
is_help arg =
    same_text arg (codes "-h")
    || same_text arg (codes "-H")
    || (same_text arg (codes "/h") || same_text arg (codes "/H"))

unfoldable pub on_saved : Status × List Event → List Event → Exit × List Event
on_saved (status, saved) events =
    if efi_error status
    then (returned status, events ++ saved)
    else (returned success, events ++ saved)

-- The end of the conversion: save BinBuffer, BinSize bytes of it.
unfoldable pub save_result :
    Shell → Bytes → List Event → Option (Result (Image × ℕ)) → Exit × List Event
save_result sh out events none = (out_of_fuel, events)
save_result sh out events (some (fault f)) = (undefined f, events)
save_result sh out events (some (unsupported_record t)) = (returned (error unsupported), events)
save_result sh out events (some no_memory) = (returned (error out_of_resources), events)
save_result sh out events (some (ok (image, size))) =
    on_saved (save_file_to_disk sh out (take size image.buffer)) events

unfoldable pub on_content :
    Shell → Bytes → Bytes → Status × Option Bytes × List Event → Exit × List Event
on_content sh garbage out (status, none, events) = (returned status, events)
on_content sh garbage out (status, some content, events) =
    save_result sh out events (process_intel_hex (λ n. (sh.allocate_pool n).1) garbage content)

-- ShellAppMain; `argv` has the program name first.
unfoldable pub shell_app_main : Shell → Bytes → List Bytes → Exit × List Event
shell_app_main sh garbage [] = (fell_through, [])
shell_app_main sh garbage (name ∷ []) = (returned (error invalid_parameter), [])
shell_app_main sh garbage (name ∷ arg ∷ []) =
    if is_help arg then (returned (error invalid_parameter), []) else (fell_through, [])
shell_app_main sh garbage (name ∷ source ∷ out ∷ []) =
    on_content sh garbage out (read_file_from_disk sh source)
shell_app_main sh garbage (name ∷ source ∷ out ∷ more ∷ rest) = (fell_through, [])
