-- ===== src/PartEdit/Main/Unchanged.antt =====
-- Which commands of PartEdit.c change the disk.
use uefi_toolkit_pkg.Base.{
  ℕ, ◌≡◌, Option-cases, inl, inr, Bool, false, List, Option, some, arith, codes, Status,
}
use uefi_toolkit_pkg.PartEdit.{Machine, Partition}
use uefi_toolkit_pkg.PartEdit.Files.{Shell}
use uefi_toolkit_pkg.PartEdit.Device.{Choice, fails, chosen}
use uefi_toolkit_pkg.PartEdit.Main.{
  Library, is_word, run_dump, run_three, run_four, run_read, run_five, run_command, on_partitions,
  on_device, shell_app_main,
}

module _ {D : Type 0} {F : Type 0} (m : Machine D) (shell : Shell F) (lib : Library)
    (argv : List (List ℕ)) (parent : ℕ) where
  -- The command is none of those that write.
  pub record Reads : Type 0 where
    pub gpt : is_word m shell lib argv parent 1 (codes "gpt") (codes "GPT") ≡ false
    pub erase : is_word m shell lib argv parent 1 (codes "erase") (codes "ERASE") ≡ false
    pub flash : is_word m shell lib argv parent 1 (codes "flash") (codes "FLASH") ≡ false
    pub write : is_word m shell lib argv parent 1 (codes "write") (codes "WRITE") ≡ false

  run_three_unchanged :
      (d : D) (f : F) (r : Status × D × F)
      → Reads
      → run_three m shell lib argv parent d f ≡ some r
      → r.1 ≡ d
  unfolding run_three run_dump
  run_three_unchanged d f r reads h = ground (arith, reads.gpt, reads.erase)

  run_four_unchanged :
      (d : D) (f : F) (r : Status × D × F)
      → Reads
      → run_four m shell lib argv parent d f ≡ some r
      → r.1 ≡ d
  unfolding run_four
  run_four_unchanged d f r reads h = ground (arith, reads.flash)

  run_five_unchanged :
      (d : D) (f : F) (r : Status × D × F)
      → Reads
      → run_five m shell lib argv parent d f ≡ some r
      → r.1 ≡ d
  unfolding run_five run_read
  run_five_unchanged d f r reads h = ground (arith, reads.write)

  run_command_unchanged :
      (d : D) (f : F) (r : Status × D × F)
      → Reads
      → run_command m shell lib argv parent d f ≡ some r
      → r.1 ≡ d
  unfolding run_command
  run_command_unchanged d f r reads h =
      let three = run_three_unchanged d f r reads in
      let four = run_four_unchanged d f r reads in
      let five = run_five_unchanged d f r reads in ground (arith, three, four, five)

module _ {D : Type 0} {F : Type 0} (m : Machine D) (shell : Shell F) (lib : Library)
    (argv : List (List ℕ)) where
  on_device_unchanged :
      (listed : ℕ → Option (Status × List Partition)) (d : D) (f : F) (c : Choice)
      (r : Status × D × F)
      → ((ps : List Partition) (parent : ℕ)
          → Reads (record m { partitions = ps }) shell lib argv parent)
      → on_device m shell lib argv listed d f c ≡ some r
      → r.1 ≡ d
  unfolding on_device on_partitions
  on_device_unchanged listed d f (fails status) r reads h = ground arith
  on_device_unchanged listed d f (chosen index) r reads h = elim (Option-cases (listed index)) [
    | inl off ↦ absurd (ground (arith, off))
    | inr (ps, found) ↦
        let run =
          run_command_unchanged (record m { partitions = ps.1 }) shell lib argv (lib.parent index) d
            f r (reads ps.1 (lib.parent index)) in
        ground (arith, found, run)
  ]

  -- When the first word is none of gpt, erase, flash and write, in small or in capital letters,
  -- PartEdit leaves the disk as it was, whatever it returns.
  pub shell_app_main_unchanged :
      (room : Bool) (device : Option Choice) (listed : ℕ → Option (Status × List Partition)) (d : D)
      (f : F) (r : Status × D × F)
      → Reads m shell lib argv 0
      → shell_app_main m shell lib argv room device listed d f ≡ some r
      → r.1 ≡ d
  unfolding shell_app_main is_word
  shell_app_main_unchanged room device listed d f r reads h =
      let reads' : (ps : List Partition) (parent : ℕ)
          → Reads (record m { partitions = ps }) shell lib argv parent =
        λ ps parent. record {
          gpt = reads.gpt;
          erase = reads.erase;
          flash = reads.flash;
          write = reads.write;
        } in
      elim (Option-cases device) [
        | inl off ↦ ground (arith, off)
        | inr (c, found) ↦
            let run = on_device_unchanged listed d f c r reads' in ground (arith, found, run)
      ]
