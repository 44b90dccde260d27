-- ===== src/Examples/PartEdit.antt =====
-- Small disks for Application/PartEdit/PartEdit.c.
use uefi_toolkit_pkg.Base.{
  ℕ, zero, suc, ◌+◌, ◌*◌, ◌^◌, ◌≤◌, ◌<◌, ◌≡◌, refl, sym, ap, ap₂, ◌∙◌, Bool, true, false, List, [],
  ◌∷◌, ◌++◌, some, arith, Bytes, codes, length, length-append, length-take, length-drop,
  length-replicate, take, drop, take-append, drop-append_add, drop-append, replicate, get_or, leb,
  if◌then◌else◌, Bool-cases, inl, inr, Status, success, error, device_error, same_text,
}
use uefi_toolkit_pkg.PartEdit.{
  Machine, open_partition, open_protocols, find_partition, partition_size,
}
use uefi_toolkit_pkg.PartEdit.Stores.{Stores, Wrote}
use uefi_toolkit_pkg.PartEdit.Sparse.{flash_partition}
use uefi_toolkit_pkg.PartEdit.Sparse.Image.{Chunk, raw, fill, dont_care, sparse_image, painted}
use uefi_toolkit_pkg.PartEdit.Sparse.Flashed.{flash_partition-Wrote}
use uefi_toolkit_pkg.PartEdit.Erase.{erase_partition}
use uefi_toolkit_pkg.PartEdit.Erase.Erased.{Blocks, erase_partition-Wrote}
use uefi_toolkit_pkg.PartEdit.Gpt.{erase_gpt_table}
use uefi_toolkit_pkg.PartEdit.Gpt.Erased.{Device, Cleared, erase_gpt_table-Cleared}
use uefi_toolkit_pkg.PartEdit.Dump.{dump_hex, dump_loop, dump_disk_data}
use uefi_toolkit_pkg.PartEdit.Dump.Lines.{Shows, dump_hex-Shows}
use uefi_toolkit_pkg.PartEdit.Device.{
  Handle, no_handle, continues, chosen, round, usb_loop, is_usb_device,
}
use uefi_toolkit_pkg.PartEdit.Device.First.{first_device}
use uefi_toolkit_pkg.PartEdit.Files.{Shell}
use uefi_toolkit_pkg.PartEdit.Main.{
  Library, shell_app_main, is_word, run_command, run_three, run_dump, on_device, on_partitions,
}
use uefi_toolkit_pkg.PartEdit.Main.Unchanged.{Reads, shell_app_main_unchanged}

-- A disk of `n` bytes. A write that is not inside does nothing.
record Disk (n : ℕ) : Type 0 where
  bytes : Bytes
  sized : length bytes ≡ n

abbrev spliced : ℕ → Bytes → Bytes → Bytes
spliced offset new old =
    if leb (offset + length new) (length old)
    then take offset old ++ (new ++ drop (offset + length new) old)
    else old

length-spliced : (offset : ℕ) (new old : Bytes) → length (spliced offset new old) ≡ length old
length-spliced offset new old = elim (Bool-cases (leb (offset + length new) (length old))) [
  | inl inside ↦
      let fits : offset + length new ≤ length old = ground (arith, inside) in
      let tail = drop (offset + length new) old in
      rw inside (
        omega (
          arith,
          length-append (take offset old) (new ++ tail),
          length-append new tail,
          length-take offset old,
          length-drop (offset + length new) old,
          fits,
        ))
  | inr outside ↦ rw outside refl
]

spliced_lem :
    (done old rest new whole : Bytes)
    → whole ≡ done ++ (old ++ rest)
    → length new ≡ length old
    → spliced (length done) new whole ≡ done ++ (new ++ rest)
spliced_lem done old rest new whole parts same =
    let size = ap length parts ∙ length-append done (old ++ rest) in
    let inner = length-append old rest in
    let inside : leb (length done + length new) (length whole) ≡ true =
      ground (arith, size, inner, same) in
    let front : take (length done) whole ≡ done =
      ap (take (length done)) parts ∙ take-append done (old ++ rest) in
    let back : drop (length done + length new) whole ≡ rest =
      ap₂ (λ k w. drop (length done + k) w) same parts
      ∙ drop-append_add done (old ++ rest) (length done + length old) (length old) refl
      ∙ drop-append old rest in
    rw (inside, front, back) refl

abbrev write : {n : ℕ} → ℕ → Bytes → Disk n → Status × Disk n
write offset new disk = (
  success,
  record {
    bytes = spliced offset new disk.bytes;
    sized = length-spliced offset new disk.bytes ∙ disk.sized;
  },
)

-- One partition, with blocks of `size` bytes.
abbrev machine : (n size last : ℕ) → Machine (Disk n)
machine n size last = record {
  partitions = record { partition_name = codes "boot"; partition_handle = 5 } ∷ [];
  open_block_io = λ handle. success;
  open_disk_io = λ handle. success;
  block_size = λ handle. size;
  last_block = λ handle. last;
  read_disk = λ handle offset count disk. (success, take count (drop offset disk.bytes));
  write_disk = λ handle offset new disk. write offset new disk;
  write_blocks = λ handle lba new disk. write (lba * size) new disk;
  flush_blocks = λ handle disk. disk;
  to_unicode = λ name. name;
  same_text = same_text;
}

abbrev small : Machine (Disk 16)
small = machine 16 4 3

abbrev contents : {n : ℕ} → Disk n → Bytes
contents disk = disk.bytes

small-Stores : Stores small (codes "boot") contents
unfolding open_partition open_protocols find_partition partition_size same_text
small-Stores = record {
  handle = 5;
  opens = refl;
  sized = λ d. d.sized;
  writes =
      λ d done old rest new parts same. (refl, spliced_lem done old rest new d.bytes parts same);
  flushes = λ d. refl;
}

abbrev sixteen : Disk 16
sixteen = record { bytes = replicate 16 7; sized = refl }

abbrev chunks : List Chunk
chunks = raw 1 (1 ∷ 2 ∷ 3 ∷ 4 ∷ []) ∷ dont_care 1 ∷ fill 1 9 8 7 6 ∷ []

flash_partition-Wrote_example :
    Wrote contents
      (painted 4 chunks (replicate 16 7))
      (flash_partition small (codes "boot") true (sparse_image 4 4 chunks) sixteen)
flash_partition-Wrote_example =
    flash_partition-Wrote small (codes "boot") contents small-Stores 4 4 chunks sixteen
      (omega arith) (omega arith) (omega arith)
      (
        (omega arith, omega arith, refl),
        omega arith,
        (
          (omega arith, omega arith),
          omega arith,
          ((omega arith, omega arith, refl), omega arith, tt),
        ),
      )

painted_bytes :
    painted 4 chunks (replicate 16 7)
    ≡ 1 ∷ 2 ∷ 3 ∷ 4 ∷ 7 ∷ 7 ∷ 7 ∷ 7 ∷ 9 ∷ 8 ∷ 7 ∷ 6 ∷ 7 ∷ 7 ∷ 7 ∷ 7 ∷ []
painted_bytes = refl

small-Blocks : Blocks small (small-Stores.handle) contents
small-Blocks = record {
  some_block = omega arith;
  whole_blocks = refl;
  writes = λ d lba done old rest new parts same at. (
    refl,
    ap (λ k. spliced k new d.bytes) (sym at) ∙ spliced_lem done old rest new d.bytes parts same,
  );
}

erase_partition-Wrote_example :
    Wrote contents (replicate 16 0) (erase_partition small true (codes "boot") sixteen)
erase_partition-Wrote_example =
    erase_partition-Wrote small (codes "boot") contents small-Stores small-Blocks sixteen
      (omega arith) (omega arith)

dump_hex-Shows_example :
    Shows (take 18 (codes "UEFI Partition Editor")) (dump_hex 0 18 (codes "UEFI Partition Editor"))
dump_hex-Shows_example =
    dump_hex-Shows 0 18 (codes "UEFI Partition Editor") (omega arith) (ground arith)

abbrev stick : Handle
stick = record {
  block_io = success;
  disk_io = success;
  logical_partition = false;
  removable_media = true;
  device_path = success;
  nodes = [];
}

abbrev fixed : Handle
fixed = record stick { removable_media = false }

the_second : first_device (round 3 5) 0 (stick ∷ fixed ∷ []) ≡ chosen 1
unfolding round is_usb_device usb_loop
the_second = refl

stick-continues : (n i : ℕ) → i < n → round 3 5 (get_or (replicate n stick) i no_handle) ≡ continues
unfolding round
stick-continues zero i h = absurd (omega arith)
stick-continues (suc n) zero h = refl
stick-continues (suc n) (suc i) h = stick-continues n i (omega arith)

-- 68 blocks of 512 bytes: 34 for the primary table, one, and 33 for the secondary table.
abbrev large : Machine (Disk 34816)
large = machine 34816 512 67

large-Device : Device large 0 contents
large-Device = record {
  some_block = omega arith;
  narrow = omega arith;
  whole_blocks = refl;
  enough = omega arith;
  sized = λ d. d.sized;
  writes =
      λ d done old rest new parts same. (refl, spliced_lem done old rest new d.bytes parts same);
  flushes = λ d. refl;
}

abbrev filled : ℕ → ℕ → Bytes
filled n b = replicate n b

abbrev tables : (head middle tail : ℕ) → Bytes
tables head middle tail = filled head 1 ++ (filled middle 2 ++ filled tail 3)

length-tables : (head middle tail : ℕ) → length (tables head middle tail) ≡ head + (middle + tail)
length-tables head middle tail = omega (
  arith,
  length-append (filled head 1) (filled middle 2 ++ filled tail 3),
  length-append (filled middle 2) (filled tail 3),
  length-replicate head (suc zero),
  length-replicate middle (suc (suc zero)),
  length-replicate tail (suc (suc (suc zero))),
)

abbrev with_tables : Disk 34816
with_tables = record { bytes = tables 17408 512 16896; sized = length-tables 17408 512 16896 }

erase_gpt_table-Cleared_example :
    Cleared contents
      (filled (length (filled 17408 1)) 0 ++ (filled 512 2 ++ filled (length (filled 16896 3)) 0))
      (erase_gpt_table large (λ n. true) (some 0) with_tables)
erase_gpt_table-Cleared_example =
    erase_gpt_table-Cleared large 0 (λ n. true) (λ n. refl) contents large-Device with_tables
      (filled 17408 1) (filled 512 2) (filled 16896 3) refl (length-replicate 17408 (suc zero))
      (length-replicate 16896 (suc (suc (suc zero)))) (omega (arith, length-tables 17408 512 16896))
      (omega arith)

-- A file system without files.
abbrev no_files : Shell Bool
no_files = record {
  exists_file = λ name files. false;
  delete_file = λ name files. files;
  create_file = λ name files. (success, files);
  open_file = λ name files. (error device_error, files);
  write_file = λ bytes files. (success, true);
  close_file = λ files. files;
  file_size = λ files. (error device_error, 0);
  read_file = λ size files. (error device_error, []);
}

abbrev library : Library
library = record {
  to_ascii = λ text. text;
  hex_to_uintn = λ text. 4;
  bin_name = λ text. text;
  size_2gb = 2 ^ 31;
  can = λ n. true;
  parent = λ index. 5;
}

abbrev dump_words : List (List ℕ)
dump_words = codes "PartEdit.efi" ∷ codes "dump" ∷ codes "4" ∷ []

dump_words-Reads : Reads small no_files library dump_words 0
unfolding is_word same_text
dump_words-Reads = record { gpt = refl; erase = refl; flash = refl; write = refl }

dump_run :
    shell_app_main small no_files library dump_words true
      (some (chosen 0))
      (λ index. some (success, []))
      sixteen
      false
    ≡ some (success, sixteen, false)
unfolding shell_app_main on_device on_partitions run_command run_three run_dump is_word same_text
    dump_disk_data dump_hex dump_loop
dump_run = refl

shell_app_main_unchanged_example : sixteen ≡ sixteen
shell_app_main_unchanged_example =
    shell_app_main_unchanged small no_files library dump_words true (some (chosen 0))
      (λ index. some (success, [])) sixteen false (success, sixteen, false) dump_words-Reads
      dump_run
