-- ===== src/UefiConsole/Mem/Ranged.antt =====
-- The range that the command mem shows, Drivers/Dxe/UefiConsole/Mem.c.
use uefi_toolkit_pkg.Base.{
  ℕ, ◌^◌, ◌<◌, ◌≡◌, ◌∙◌, refl, ap, Bool, true, false, List, [], ◌∷◌, All, Option, none, some, codes,
  length, ltb, if_false, arith,
}
use uefi_toolkit_pkg.UefiConsole.Numbers.Spelling.{Spelled}
use uefi_toolkit_pkg.UefiConsole.Numbers.Converted.{
  convert_string_to_uint64-Spelled, is_hex_or_decimal_number-Spelled,
}
use uefi_toolkit_pkg.UefiConsole.Package.{Compare, PackagePool, Param, get_raw_value, get_count}
use uefi_toolkit_pkg.UefiConsole.Package.Pieces.{Plain}
use uefi_toolkit_pkg.UefiConsole.Package.Given.{given_words, unescaped-Spelled, given-Reads}
use uefi_toolkit_pkg.UefiConsole.Package.Read.{positions, at_or, last_named, is_named}
use uefi_toolkit_pkg.UefiConsole.Run.{ShellParameters}
use uefi_toolkit_pkg.UefiConsole.Mem.{
  MmioServices, shows_memory, mem_param_list, mem_number, mem_range, on_mem_range, on_mem_package,
  shell_command_run_mem,
}

small_test : (v : ℕ) → v < 2 ^ 64 → ltb v (2 ^ 64) ≡ true
small_test v h = ground (arith, h)

-- A number is tested in one base, and converted as a hexadecimal one.
mem_number-Spelled :
    (hex : Bool) (held : ℕ) (t : List ℕ) (u v : ℕ)
    → Spelled hex t u
    → Spelled true t v
    → u < 2 ^ 64
    → v < 2 ^ 64
    → mem_number hex held t ≡ (false, v)
unfolding mem_number
mem_number-Spelled hex held t u v tested converted small_u small_v =
    rw
      (
        is_hex_or_decimal_number-Spelled 0 false hex t u tested,
        small_test u small_u,
        convert_string_to_uint64-Spelled 0 false true t v converted,
        small_test v small_v,
      )
      refl

second_given :
    (name a s : List ℕ) (u : ℕ)
    → Spelled true a u
    → at_or (positions (given_words (name ∷ a ∷ s ∷ []))) 1 none ≡ some a
unfolding positions at_or
second_given name a s u h = ap some (unescaped-Spelled true a u h)

third_given :
    (name a s : List ℕ) (u : ℕ)
    → Spelled false s u
    → at_or (positions (given_words (name ∷ a ∷ s ∷ []))) 2 none ≡ some s
unfolding positions at_or
third_given name a s u h = ap some (unescaped-Spelled false s u h)

three_given : (name a s : List ℕ) → length (positions (given_words (name ∷ a ∷ s ∷ []))) ≡ 3
unfolding positions
three_given name a s = refl

module _ (compare : Compare) (pool : PackagePool) (services : MmioServices) (system_table : ℕ) where
  none_named :
      (key name a s : List ℕ)
      → last_named compare pool key (given_words (name ∷ a ∷ s ∷ [])) none ≡ none
  unfolding last_named
  none_named key name a s = refl

  mem_range-given :
      (items : Option (List Param)) (a s : List ℕ) (address u size : ℕ)
      → get_count items ≡ 3
      → get_raw_value items 1 ≡ some a
      → get_raw_value items 2 ≡ some s
      → Spelled true a address
      → Spelled false s u
      → Spelled true s size
      → address < 2 ^ 64
      → u < 2 ^ 64
      → size < 2 ^ 64
      → mem_range compare pool services system_table items ≡ (false, address, size)
  unfolding mem_range
  mem_range-given items a s address u size count first second is_a is_u is_size small_a small_u
        small_s =
      rw
        (
          count,
          first,
          second,
          mem_number-Spelled true 0 a address address is_a is_a small_a small_a,
          mem_number-Spelled false 0 s u size is_u is_size small_u small_s,
        )
        refl

  -- If the command line is the name mem, an address in hexadecimal digits and a size in decimal
  -- digits, all of 64 bits and none of them a flag: when the pool has room, the command mem succeeds
  -- and shows the memory at that address, of the size that the digits spell in base 16, not 10.
  pub shell_command_run_mem-Spelled :
      (p : ShellParameters) (name a s : List ℕ) (address u size : ℕ)
      → pool.head_room ≡ true
      → ((i : ℕ) → pool.node_room i ≡ true)
      → ((i : ℕ) → pool.text_room i ≡ true)
      → p ≡ record { argv = some (name ∷ a ∷ s ∷ []); argc = 3; dangling = false }
      → All (Plain compare pool mem_param_list false false) (name ∷ a ∷ s ∷ [])
      → Spelled true a address
      → Spelled false s u
      → Spelled true s size
      → address < 2 ^ 64
      → u < 2 ^ 64
      → size < 2 ^ 64
      → shell_command_run_mem compare pool services system_table p
        ≡ some (0, shows_memory address size)
  unfolding shell_command_run_mem on_mem_package on_mem_range
  shell_command_run_mem-Spelled p name a s address u size head node_room text_room given plain is_a
        is_u is_size small_a small_u small_s =
      let parsed =
        given-Reads compare pool mem_param_list p name (a ∷ s ∷ []) head node_room text_room given
          plain in
      let items = parsed.0 in
      let range =
        mem_range-given (some items) a s address u size (parsed.2.counted ∙ three_given name a s)
          (parsed.2.raw 1 (omega arith) ∙ second_given name a s address is_a)
          (parsed.2.raw 2 (omega arith) ∙ third_given name a s u is_u) is_a is_u is_size small_a
          small_u small_s in
      let unflagged =
        parsed.2.flagged (codes "-mmio") ∙ ap is_named (none_named (codes "-mmio") name a s) in
      ap (on_mem_package compare pool services system_table) parsed.1
      ∙ ap (λ r. some (on_mem_range compare pool services system_table (some items) r)) range
      ∙ ap some (if_false _ _ _ unflagged)
