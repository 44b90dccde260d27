-- ===== src/PartEdit/Stores.antt =====
-- What PartEdit.c relies on of the disk: a partition that can be opened, and whose DiskIo replaces
-- bytes inside it.
use uefi_toolkit_pkg.Base.{
  ℕ, ◌≡◌, refl, ap, ◌∙◌, false, ◌++◌, Option, some, arith, Bytes, length, length-append, take,
  take-append, ltb, Status, success,
}
use uefi_toolkit_pkg.PartEdit.{
  Machine, open_partition, partition_size, flush_written, write_partition,
}

-- `contents` is what the partition `name` has.
pub record Stores {D : Type 0} (m : Machine D) (name : Bytes) (contents : D → Bytes) : Type 0 where
  pub handle : ℕ
  pub opens : open_partition m name ≡ (success, handle)
  pub sized : (d : D) → length (contents d) ≡ partition_size m handle
  pub writes :
      (d : D) (done old rest bytes : Bytes)
      → contents d ≡ done ++ (old ++ rest)
      → length bytes ≡ length old
      → ((m.write_disk handle (length done) bytes d).0 ≡ success)
        × (contents (m.write_disk handle (length done) bytes d).1 ≡ done ++ (bytes ++ rest))
  pub flushes : (d : D) → contents (m.flush_blocks handle d) ≡ contents d

write_steps :
    {D : Type 0} (m : Machine D) (name : Bytes) (handle offset size : ℕ) (data_buffer bytes : Bytes)
    (d : D)
    → open_partition m name ≡ (success, handle)
    → ltb (partition_size m handle) size ≡ false
    → ltb (length data_buffer) size ≡ false
    → take size data_buffer ≡ bytes
    → (m.write_disk handle offset bytes d).0 ≡ success
    → write_partition m name offset data_buffer size d
      ≡ some (success, m.flush_blocks handle (m.write_disk handle offset bytes d).1)
unfolding write_partition flush_written
write_steps m name handle offset size data_buffer bytes d opens fits enough part fine =
    rw (opens, fits, enough, part, fine) refl

-- A write of `bytes` over `old`.
pub record Wrote {D : Type 0} (contents : D → Bytes) (whole : Bytes) (r : Option (Status × D))
    : Type 0 where
  pub disk : D
  pub returns : r ≡ some (success, disk)
  pub holds : contents disk ≡ whole

pub write_partition-Wrote :
    {D : Type 0} (m : Machine D) (name : Bytes) (contents : D → Bytes) (s : Stores m name contents)
    (d : D) (done old rest bytes tail : Bytes) (offset size : ℕ)
    → contents d ≡ done ++ (old ++ rest)
    → length bytes ≡ length old
    → offset ≡ length done
    → size ≡ length bytes
    → Wrote contents
        (done ++ (bytes ++ rest))
        (write_partition m name offset (bytes ++ tail) size d)
write_partition-Wrote m name contents s d done old rest bytes tail offset size whole same at all =
    let w = s.writes d done old rest bytes whole same in
    let total = ap length whole ∙ length-append done (old ++ rest) in
    let inner = length-append old rest in
    let fits : ltb (partition_size m s.handle) size ≡ false =
      ground (arith, s.sized d, total, inner, same, all) in
    let enough : ltb (length (bytes ++ tail)) size ≡ false =
      ground (arith, length-append bytes tail, all) in
    let part : take size (bytes ++ tail) ≡ bytes =
      ap (λ n. take n (bytes ++ tail)) all ∙ take-append bytes tail in
    let fine : (m.write_disk s.handle offset bytes d).0 ≡ success =
      ap (λ n. (m.write_disk s.handle n bytes d).0) at ∙ w.0 in
    record {
      disk = m.flush_blocks s.handle (m.write_disk s.handle offset bytes d).1;
      returns =
          write_steps m name s.handle offset size (bytes ++ tail) bytes d s.opens fits enough part
            fine;
      holds =
          s.flushes (m.write_disk s.handle offset bytes d).1
          ∙ (ap (λ n. contents (m.write_disk s.handle n bytes d).1) at ∙ w.1);
    }
