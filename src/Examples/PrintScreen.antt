-- ===== src/Examples/PrintScreen.antt =====
-- Concrete inputs for Drivers/Dxe/PrintScreenLogger/PrintScreenLogger.c.
use uefi_toolkit_pkg.Base.{
  ◌≡◌, refl, true, false, [], ◌∷◌, some, arith, ◌==◌, if◌then◌else◌, success, error, not_found,
  device_error,
}
use uefi_toolkit_pkg.PrintScreen.Drive.{Handle}
use uefi_toolkit_pkg.PrintScreen.Drive.First.{first_offer}
use uefi_toolkit_pkg.PrintScreen.Capture.{Volume, print_screen_callback}
use uefi_toolkit_pkg.PrintScreen.Capture.NewFile.{captured, print_screen_callback-first_free}
use uefi_toolkit_pkg.PrintScreen.Bitmap.{
  Pixel, blue_green_red_reserved, Display, data_size_per_line, image_offset, bmp_buffer_size,
  write_bmp_to_file,
}
use uefi_toolkit_pkg.PrintScreen.Bitmap.Safety.{Shown, Safe, write_bmp_to_file-Safe}
use uefi_toolkit_pkg.PrintScreen.Driver.{
  Services, print_screen_logger_entry, print_screen_logger_unload,
}
use uefi_toolkit_pkg.PrintScreen.Driver.Balance.{
  key, timer, taken, given_back, starts, print_screen_logger_entry-unload,
}

-- A drive without the file, one with it, and a handle without a device path.
abbrev plain : Handle
plain = record {
  usb_path = true;
  usb = success;
  block_path = true;
  block_io = success;
  file_system = success;
  volume = success;
  enable_file = error not_found;
}

abbrev enabled : Handle
enabled = record plain { enable_file = success }

abbrev pathless : Handle
pathless = record plain { usb_path = false }

-- Two files are there; the third open fails in another way.
abbrev stick : Volume
stick = record {
  open_read =
      λ n. if n == 1 then success else if n == 2 then error device_error else error not_found;
  create = λ n. success;
}

print_screen_callback-first_free_example :
    print_screen_callback success success (plain ∷ enabled ∷ []) (λ n. stick)
    ≡ some (captured (λ n. stick) (first_offer (plain ∷ enabled ∷ []) 0))
print_screen_callback-first_free_example =
    print_screen_callback-first_free success success (plain ∷ enabled ∷ []) (λ n. stick) refl refl
      (omega arith) (refl, (refl, tt))

abbrev grey : Pixel
grey = record { blue = 128; green = 128; red = 128 }

abbrev screen : Display
screen = record {
  located = success;
  format = blue_green_red_reserved;
  width = 2;
  height = 2;
  blt_room = true;
  blt = success;
  pixels = grey ∷ grey ∷ grey ∷ grey ∷ [];
  header_size = 54;
  header_address = 0x1000;
  bmp_room = λ n. true;
  write = λ n. (success, n);
}

screen-Shown : Shown screen
unfolding data_size_per_line image_offset
screen-Shown = record {
  narrow = omega arith;
  enough = omega arith;
  few = omega arith;
  aligned = refl;
  low = omega arith;
}

write_bmp_to_file-Safe_example :
    Safe (bmp_buffer_size screen.header_size screen.width screen.height) (write_bmp_to_file screen)
write_bmp_to_file-Safe_example = write_bmp_to_file-Safe screen screen-Shown

-- The timer event cannot be created.
abbrev no_timer : Services
no_timer = record {
  console = some success;
  register = λ n. success;
  create_event = error device_error;
  signal_event = success;
}

print_screen_logger_entry-unload_example :
    let r = print_screen_logger_entry no_timer in
    let unloaded = (print_screen_logger_unload r.1).1 in
    (given_back unloaded ≡ taken r.2)
    × (given_back r.2 ≡ (if starts no_timer then [] else taken r.2))
    × (starts no_timer ≡ true → taken r.2 ≡ key 0 ∷ key 1 ∷ timer ∷ [])
print_screen_logger_entry-unload_example =
    print_screen_logger_entry-unload no_timer success refl refl
