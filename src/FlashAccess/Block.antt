-- ===== src/FlashAccess/Block.antt =====
-- The body of the update loop: what becomes of one block.
use uefi_toolkit_pkg.Base.{
  ℕ, suc, ◌-◌, ◌%◌, ◌≤◌, ◌≡◌, inl, inr, refl, sym, subst, ◌∙◌, true, false, arith, Bytes, length,
  take, length-take, ltb, if◌then◌else◌, Bool-cases, Status, success, warning, error, efi_error,
}
use uefi_toolkit_pkg.FlashAccess.Device.{program, erase, Board, block_size, Confined}
use uefi_toolkit_pkg.FlashAccess.Spi.{Flow, returns, internal_compare_block, internal_write_block}
use uefi_toolkit_pkg.FlashAccess.Update.{update_block}
use uefi_toolkit_pkg.FlashAccess.Frame.{
  Inside, Programmed, SameOutside, compare-Programmed, erase-eq, checked, write-eq,
}

module _ (b : Board) where
  -- What became of one block: its status, the device, and that nothing else changed.
  pub record BlockDone (address : ℕ) (buf : Bytes) (d : b.Device) (r : Flow (Status × b.Device))
      : Type 0 where
    pub status : Status
    pub device : b.Device
    pub ends : r ≡ returns (status, device)
    pub same : SameOutside b (address - b.base) block_size d device
    pub holds : efi_error status ≡ false → Programmed b (address - b.base) block_size buf device

  erase-same :
      (offset : ℕ) (d : b.Device)
      → offset % block_size ≡ 0
      → Confined b
      → SameOutside b offset block_size d (b.execute (erase offset) d).1
  erase-same offset d aligned confined i out =
      confined (erase offset) d i (λ t. omega (arith, t, out, aligned))

  program-same :
      (offset n : ℕ) (buf : Bytes) (d : b.Device)
      → Confined b
      → SameOutside b offset n d (b.execute (program offset (take n buf)) d).1
  program-same offset n buf d confined i out =
      let short : length (take n buf) ≤ n = omega (arith, length-take n buf) in
      confined (program offset (take n buf)) d i (λ t. omega (arith, t.0, t.1, out, short))

  checked-Done :
      (address : ℕ) (buf : Bytes) (d : b.Device) (r : Status × b.Device)
      → b.base ≤ address
      → SameOutside b (address - b.base) block_size d r.1
      → BlockDone address buf d (returns (checked b address buf r))
  checked-Done address buf d (success, e) above same = record {
    status = internal_compare_block b address buf e;
    device = e;
    ends = refl;
    same = same;
    holds = compare-Programmed b address buf e above;
  }
  checked-Done address buf d (warning w, e) above same = record {
    status = internal_compare_block b address buf e;
    device = e;
    ends = refl;
    same = same;
    holds = compare-Programmed b address buf e above;
  }
  checked-Done address buf d (error c, e) above same = record {
    status = error c;
    device = e;
    ends = refl;
    same = same;
    holds = λ h. absurd (ground (arith, h));
  }

  write-Done :
      (address k : ℕ) (buf : Bytes) (d : b.Device)
      → suc k ≡ block_size
      → Inside b address block_size
      → Confined b
      → BlockDone address buf d (internal_write_block b address buf (suc k) d)
  write-Done address k buf d full h confined =
      let r = b.execute (program (address - b.base) (take (suc k) buf)) d in
      subst (BlockDone address buf d)
        (sym (
          write-eq b address k buf d (omega (arith, full)) (subst (Inside b address) (sym full) h)))
        (checked-Done address buf d r h.above (
          subst (λ n. SameOutside b (address - b.base) n d r.1) full
            (program-same (address - b.base) (suc k) buf d confined)))

  -- Erased, then written.
  abbrev rewritten : ℕ → Bytes → ℕ → Status × b.Device → Flow (Status × b.Device)
  rewritten address buf n (erase_status, erased) = elim (efi_error erase_status) [
    | true ↦ returns (erase_status, erased)
    | false ↦ internal_write_block b address buf n erased
  ]

  BlockDone-after :
      (address : ℕ) (buf : Bytes) (d e : b.Device) (r : Flow (Status × b.Device))
      → SameOutside b (address - b.base) block_size d e
      → BlockDone address buf e r
      → BlockDone address buf d r
  BlockDone-after address buf d e r same h = record {
    status = h.status;
    device = h.device;
    ends = h.ends;
    same = λ i out. h.same i out ∙ same i out;
    holds = h.holds;
  }

  rewritten-Done :
      (address k : ℕ) (buf : Bytes) (d : b.Device) (r : Status × b.Device)
      → suc k ≡ block_size
      → Inside b address block_size
      → Confined b
      → SameOutside b (address - b.base) block_size d r.1
      → BlockDone address buf d (rewritten address buf (suc k) r)
  rewritten-Done address k buf d (success, e) full h confined same =
      BlockDone-after address buf d e _ same (write-Done address k buf e full h confined)
  rewritten-Done address k buf d (warning w, e) full h confined same =
      BlockDone-after address buf d e _ same (write-Done address k buf e full h confined)
  rewritten-Done address k buf d (error c, e) full h confined same = record {
    status = error c;
    device = e;
    ends = refl;
    same = same;
    holds = λ wrong. absurd (ground (arith, wrong));
  }

  full_block :
      (length : ℕ)
      → block_size ≤ length
      → (if ltb block_size length then block_size else length) ≡ block_size
  full_block length h = ground arith

  pub update_block-Done :
      (address size : ℕ) (buf : Bytes) (status : Status) (d : b.Device)
      → block_size ≤ size
      → Inside b address block_size
      → Confined b
      → efi_error status ≡ false
      → BlockDone address buf d (update_block b address buf size status d)
  unfolding update_block
  update_block-Done address size buf status d long h confined fine =
      elim (Bool-cases (efi_error (internal_compare_block b address buf d))) [
        | inl differs ↦
            let r = b.execute (erase (address - b.base)) d in
            rw (differs, erase-eq b address d h)
              (subst (λ n. BlockDone address buf d (rewritten address buf n r))
                (sym (full_block size long))
                (rewritten-Done address 4095 buf d r refl h confined
                  (erase-same (address - b.base) d h.aligned confined)))
        | inr equal ↦ rw equal (record {
          status = status;
          device = d;
          ends = refl;
          same = λ i out. refl;
          holds = λ ok. compare-Programmed b address buf d h.above equal;
        })
      ]
