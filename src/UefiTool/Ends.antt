-- ===== src/UefiTool/Ends.antt =====
-- The options of UefiTool.c are read to their end.
use uefi_toolkit_pkg.Base.{
  ℕ, zero, suc, ◌+◌, ◌%◌, ◌^◌, ◌≤◌, ◌<◌, ◌≡◌, ◌≢◌, refl, Bool, false, List, arith, Bytes, codes,
  length, ltb, Bool-cases, inl, inr, Status, efi_error,
}
use uefi_toolkit_pkg.UefiTool.{
  Context, start, Step, goes, faults, Parsed, parsed, is, memory_step, option_step, option_loop,
  read_options,
}

module _ (hex : List ℕ → ℕ) (same : List ℕ → Bytes → Bool) (argv : List (List ℕ)) where
  -- No word is one of the options that are not checked for all of their arguments.
  pub record Checked : Type 0 where
    pub width : (i : ℕ) → is hex same argv i (codes "-W") ≡ false
    pub write : (i : ℕ) → is hex same argv i (codes "-WMM") ≡ false
    pub write_test : (i : ℕ) → is hex same argv i (codes "-WT") ≡ false

  -- A round that goes on passes at least one word and at most four.
  memory_step-goes :
      (i : ℕ) (c : Context) (n : ℕ) (c' : Context)
      → memory_step hex same argv i c ≡ goes n c'
      → (i < n) × (n ≤ i + 4)
  unfolding memory_step
  memory_step-goes i c n c' h = ground arith

  option_step-goes :
      (i : ℕ) (c : Context) (n : ℕ) (c' : Context)
      → option_step hex same argv i c ≡ goes n c'
      → (i < n) × (n ≤ i + 4)
  unfolding option_step
  option_step-goes i c n c' h = let memory = memory_step-goes i c n c' in ground (arith, memory)

  memory_step-faults : (i : ℕ) (c : Context) → Checked → memory_step hex same argv i c ≢ faults
  unfolding memory_step
  memory_step-faults i c checked h =
      let width = checked.width i in
      let write = checked.write i in
      let write_test = checked.write_test i in ground (arith, width, write, write_test)

  option_step-faults : (i : ℕ) (c : Context) → Checked → option_step hex same argv i c ≢ faults
  unfolding option_step
  option_step-faults i c checked h =
      let memory = memory_step-faults i c checked in ground (arith, memory)

  -- The options are read to their end.
  pub record Read (r : Parsed) : Type 0 where
    pub context : Context
    pub returns : r ≡ parsed context

  step-Read :
      (fuel i : ℕ) (c : Context) (st : Step)
      → option_step hex same argv i c ≡ st
      → ltb (length argv) (i + 1) ≡ false
      → Checked
      → ((n : ℕ) (c' : Context)
          → i < n
          → n ≤ i + 4
          → Read (option_loop hex same argv fuel (n % 2 ^ 8) c'))
      → Read (option_loop hex same argv (suc fuel) i c)
  unfolding option_loop
  step-Read fuel i c (goes n c') same_step inside checked next =
      let passed = option_step-goes i c n c' same_step in
      let r = next n c' passed.0 passed.1 in
      record { context = r.context; returns = rw (inside, same_step) r.returns }
  step-Read fuel i c faults same_step inside checked next =
      absurd (option_step-faults i c checked same_step)

  option_loop-Read :
      (fuel i : ℕ) (c : Context)
      → Checked
      → length argv ≤ 252
      → i ≤ 255
      → 0 < fuel
      → length argv < fuel + i
      → Read (option_loop hex same argv fuel i c)
  unfolding option_loop
  option_loop-Read zero i c checked few low some_fuel enough = absurd (omega (arith, some_fuel))
  option_loop-Read (suc fuel) i c checked few low some_fuel enough =
      elim (Bool-cases (ltb (length argv) (i + 1))) [
        | inl behind ↦ record { context = c; returns = rw behind refl }
        | inr inside ↦
            let here : i + 1 ≤ length argv = ground (arith, inside) in
            step-Read fuel i c (option_step hex same argv i c) refl inside checked
              (λ n c' more most.
                let wrap : n % 2 ^ 8 ≡ n = omega (arith, more, most, here, few) in
                option_loop-Read fuel (n % 2 ^ 8) c' checked few (omega arith)
                  (omega (arith, enough, here)) (omega (arith, wrap, more, enough)))
      ]

  run_steps :
      (located : Status) (bits : ℕ) (c : Context)
      → efi_error located ≡ false
      → option_loop hex same argv (suc (length argv)) 1 (record start { opcode = bits }) ≡ parsed c
      → read_options hex same argv located bits ≡ inr (parsed c)
  unfolding read_options
  run_steps located bits c fine done = rw (fine, done) refl

  -- With at most 252 words, the options of UefiTool are read to their end, with one round for each
  -- word and no read behind the words, if the processors could be located and no word is -W, -WMM or
  -- -WT in any letter case.
  pub read_options_ends :
      (located : Status) (bits : ℕ)
      → Checked
      → length argv ≤ 252
      → efi_error located ≡ false
      → (c : Context) × (read_options hex same argv located bits ≡ inr (parsed c))
  read_options_ends located bits checked few fine =
      let r =
        option_loop-Read (suc (length argv)) 1 (record start { opcode = bits }) checked few
          (omega arith) (omega arith) (omega arith) in
      (r.context, run_steps located bits r.context fine r.returns)
