-- ===== src/Examples/TcpTransport.antt =====
-- Small transfers for Application/TcpTransport/TcpTransport.c.
use uefi_toolkit_pkg.Base.{
  ℕ, ◌<◌, ◌≡◌, refl, Bool, true, false, [], ◌∷◌, ◌++◌, map, none, some, arith, Bytes, codes,
  replicate, leb, success, error, device_error, no_mapping, Option,
}
use uefi_toolkit_pkg.TcpTransport.Receive.{
  Stop, transfer_failed, filled, tcp_data_receive, rx_fragment_size,
}
use uefi_toolkit_pkg.TcpTransport.Receive.Rounds.{joined}
use uefi_toolkit_pkg.TcpTransport.Receive.Appends.{Kept, tcp_data_receive-Kept}
use uefi_toolkit_pkg.TcpTransport.Save.{Shell, delete_old, connection_accepted}
use uefi_toolkit_pkg.TcpTransport.Save.Written.{Saved, connection_accepted-Saved}
use uefi_toolkit_pkg.TcpTransport.StartUp.{
  Services, Station, indeterminate, idle, shell_app_main, open_tcp_instance, configure_and_listen,
  listen, on_configure,
}

-- A disk is the content of Download.bin.
abbrev shell : Shell (Option Bytes)
shell = record {
  exists_file = λ disk. true;
  delete_file = λ disk. none;
  open_file = λ disk. (success, disk);
  write_file = λ bytes disk. (success, some bytes);
  close_file = λ disk. disk;
}

abbrev stop : Stop
stop = transfer_failed (device_error)

abbrev any_size : ℕ → Bool
any_size n = true

-- Room for one block of 4096 bytes, and no larger one.
abbrev one_block : ℕ → Bool
one_block n = leb n 4096

one_block-denies : (n : ℕ) → 4096 < n → one_block n ≡ false
one_block-denies n h = ground arith

abbrev long : Bytes
long = replicate 2000 7

tcp_data_receive-Kept_example :
    Kept
      (replicate 1 none ++ some (replicate rx_fragment_size 0) ∷ [])
      (joined (codes "ab" ∷ codes "c" ∷ []))
      stop
      (tcp_data_receive 4096 any_size (map filled (codes "ab" ∷ codes "c" ∷ [])) stop (none ∷ []))
tcp_data_receive-Kept_example =
    tcp_data_receive-Kept 4096 any_size stop (λ n. refl) (omega arith) (codes "ab") (codes "c" ∷ [])
      (none ∷ []) (omega arith, (omega arith, tt)) (omega arith) (omega arith)

connection_accepted-Saved_example : Saved [] (codes "abc") (some (codes "abc")) (
    connection_accepted shell success success 4096 any_size
      (map filled (codes "ab" ∷ codes "c" ∷ []))
      stop
      []
      (some (codes "x")))
unfolding delete_old
connection_accepted-Saved_example =
    connection_accepted-Saved shell (some (codes "x")) none success success success 4096 any_size
      (codes "ab") (codes "c" ∷ []) stop [] refl refl (λ n. refl) (omega arith)
      (omega arith, (omega arith, tt)) (omega arith) (omega arith) refl refl refl

-- DHCP answers at the second question.
abbrev services : Services
services = record {
  text_output = success;
  text_input = success;
  locate_handles = success;
  open_binding = success;
  create_child = success;
  configure = error no_mapping;
  is_configured = false ∷ true ∷ [];
  accept = success;
}

abbrev no_accept : Services
no_accept = record services { configure = success; accept = error device_error }

abbrev stuck : Station
stuck = record idle { handle_buffer = true; tcp_child = true; events = 2; address = indeterminate }

no_accept_run : shell_app_main no_accept ≡ some (error device_error, stuck)
unfolding shell_app_main open_tcp_instance configure_and_listen listen on_configure
no_accept_run = refl

abbrev at_once : Services
at_once = record services { configure = success }

abbrev listening : Station
listening = record {
  handle_buffer = false;
  tcp_child = true;
  events = 3;
  address = indeterminate;
  listening = true;
}

at_once_run : shell_app_main at_once ≡ some (success, listening)
unfolding shell_app_main open_tcp_instance configure_and_listen listen on_configure
at_once_run = refl
