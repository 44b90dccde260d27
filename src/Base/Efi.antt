-- ===== src/Base/Efi.antt =====
-- EFI_STATUS, and results of code that returns a status or does something undefined.
use Prim.Native.Nat.{ℕ}
use mathlib.Core.Bool.{Bool, true, false}

pub data EfiError : Type 0 where
  invalid_parameter unsupported bad_buffer_size buffer_too_small not_ready device_error : EfiError
  write_protected out_of_resources volume_corrupted not_found no_mapping volume_full : EfiError
  other_error : ℕ → EfiError

pub data Status : Type 0 where
  success : Status
  warning : ℕ → Status
  error : EfiError → Status

-- EFI_ERROR: the top bit of the status.
abbrev pub efi_error : Status → Bool
efi_error success = false
efi_error (warning n) = false
efi_error (error e) = true
