-- ===== src/UefiConsole/CommandLine/Arguments/Ends.antt =====
-- ParseCommandLineToArgs of Drivers/Dxe/UefiConsole/ConsoleParameters.c ends for every command line:
-- each parameter that GetNextParameter reads leaves less of the line.
use uefi_toolkit_pkg.Base.{
  ℕ, zero, suc, ◌+◌, ◌≤◌, ◌<◌, ◌≡◌, refl, Bool, true, false, ◌&&◌, List, [], ◌∷◌, Option, none,
  some, and_then, length, ◌==◌, if◌then◌else◌, Bool-cases, inl, inr, Status, success, warning,
  error, invalid_parameter, out_of_resources, efi_error, arith,
}
use uefi_toolkit_pkg.UefiConsole.CommandLine.{trim_spaces, is_listed, walk, find_first_character}
use uefi_toolkit_pkg.UefiConsole.CommandLine.Next.{
  NextParameter, on_close, on_first, find_end_of_parameter, skip_leading, give_up, on_delim,
  get_next_parameter,
}
use uefi_toolkit_pkg.UefiConsole.CommandLine.Arguments.{
  Pool, kept, no_array, none_given, given, pointed, count_loop, copy_loop, fill_array,
  parse_command_line_to_args,
}
use uefi_toolkit_pkg.UefiConsole.CommandLine.Next.Escaped.{not_zero}
use uefi_toolkit_pkg.UefiConsole.CommandLine.Next.Fuel.{walk_shrinks}

-- Nothing, or a text of at most `n` characters.
abbrev Within : ℕ → Option (List ℕ) → Type 0
Within n none = Unit
Within n (some t) = length t ≤ n

Within-mono : (n m : ℕ) (o : Option (List ℕ)) → Within n o → n ≤ m → Within m o
Within-mono n m none h le = tt
Within-mono n m (some t) h le = omega (arith, h, le)

on_close-Within :
    (f : List ℕ → Option (List ℕ)) (s : List ℕ)
    → ((t : List ℕ) → Within (length t) (f t))
    → Within (length s) (on_close f s)
on_close-Within f [] h = tt
on_close-Within f (c ∷ s) h = Within-mono (length s) (suc (length s)) (f s) (h s) (omega arith)

-- What follows the first character that FindFirstCharacter stops at.
closed : (List ℕ → Option (List ℕ)) → List ℕ → Option (List ℕ)
closed f s = on_close f (walk (34 ∷ []) 94 false s)

closed-Within :
    (f : List ℕ → Option (List ℕ)) (s : List ℕ)
    → ((t : List ℕ) → Within (length t) (f t))
    → Within (length s) (closed f s)
unfolding closed
closed-Within f s h =
    Within-mono (length (walk (34 ∷ []) 94 false s)) (length s)
      (on_close f (walk (34 ∷ []) 94 false s)) (on_close-Within f (walk (34 ∷ []) 94 false s) h)
      (walk_shrinks (34 ∷ []) 94 false s)

on_first-Within :
    (f : List ℕ → Option (List ℕ)) (s : List ℕ)
    → ((t : List ℕ) → Within (length t) (f t))
    → Within (length s) (on_first f s)
unfolding find_first_character closed
on_first-Within f [] h = omega arith
on_first-Within f (c ∷ s) h = elim (Bool-cases (c == 32)) [
  | inl space ↦ rw space (omega arith)
  | inr other ↦
      rw other
        (Within-mono (length s) (suc (length s)) (closed f s) (closed-Within f s h) (omega arith))
]

on_first-walk :
    (f : List ℕ → Option (List ℕ)) (escaped : Bool) (s : List ℕ)
    → ((t : List ℕ) → Within (length t) (f t))
    → Within (length s) (on_first f (walk (32 ∷ 34 ∷ []) 94 escaped s))
on_first-walk f escaped s h =
    let t = walk (32 ∷ 34 ∷ []) 94 escaped s in
    Within-mono (length t) (length s) (on_first f t) (on_first-Within f t h)
      (walk_shrinks (32 ∷ 34 ∷ []) 94 escaped s)

find_end-Within : (n : ℕ) (s : List ℕ) → Within (length s) (find_end_of_parameter n s)
unfolding find_end_of_parameter find_first_character
find_end-Within zero s = tt
find_end-Within (suc n) s = on_first-walk (find_end_of_parameter n) false s (find_end-Within n)

-- Of a text that starts with no space something is passed over.
find_end-shorter :
    (n c : ℕ) (s : List ℕ) → (c == 32) ≡ false → Within (length s) (find_end_of_parameter n (c ∷ s))
unfolding find_end_of_parameter find_first_character walk closed
find_end-shorter zero c s h = tt
find_end-shorter (suc n) c s h =
    let f = find_end_of_parameter n in
    elim (Bool-cases (c == 94)) [
      | inl escapes ↦ rw escapes (on_first-walk f true s (find_end-Within n))
      | inr plain ↦ elim (Bool-cases (is_listed (32 ∷ 34 ∷ []) c)) [
        | inl listed ↦ rw (plain, listed, h) (closed-Within f s (find_end-Within n))
        | inr other ↦ rw (plain, other) (on_first-walk f false s (find_end-Within n))
      ]
    ]

-- What is left of the text after the spaces and one parameter.
skip_leading-shrinks : (s : List ℕ) → length (skip_leading s) ≤ length s
unfolding skip_leading
skip_leading-shrinks [] = omega arith
skip_leading-shrinks (c ∷ s) = elim (Bool-cases (c == 32)) [
  | inl space ↦ rw space (omega (arith, skip_leading-shrinks s))
  | inr other ↦ rw other (omega arith)
]

abbrev StartsTight : List ℕ → Type 0
StartsTight [] = Unit
StartsTight (c ∷ s) = (c == 32) ≡ false

skip_leading-tight : (s : List ℕ) → StartsTight (skip_leading s)
unfolding skip_leading
skip_leading-tight [] = tt
skip_leading-tight (c ∷ s) = elim (Bool-cases (c == 32)) [
  | inl space ↦ rw space (skip_leading-tight s)
  | inr other ↦ rw other other
]

-- The place of *Walker after a call that succeeds: before it, with less of the line.
Advanced : ℕ → NextParameter → Type 0
Advanced n (success, some t, temp) = length t < n
Advanced n (success, none, temp) = ⊥
Advanced n (warning w, t, temp) = ⊥
Advanced n (error e, t, temp) = Unit

module _ (debug : Bool) (str_n_cpy_s : ℕ → List ℕ → ℕ → List ℕ → List ℕ) where
  on_delim-Advanced :
      (strip : Bool) (max : ℕ) (s temp : List ℕ) (n : ℕ) (o : Option (List ℕ))
      → Within n o
      → Advanced (suc n) (on_delim debug str_n_cpy_s strip max s temp o)
  unfolding Advanced on_delim give_up
  on_delim-Advanced strip max s temp n none h = tt
  on_delim-Advanced strip max s temp n (some t) h = omega (arith, h)

  tight-Advanced :
      (strip : Bool) (max fuel : ℕ) (s temp : List ℕ)
      → StartsTight s
      → Advanced (length s) (
          if length s == 0
          then give_up debug str_n_cpy_s (error invalid_parameter) s temp
          else on_delim debug str_n_cpy_s strip max s temp (find_end_of_parameter fuel s))
  unfolding Advanced give_up
  tight-Advanced strip max fuel [] temp h = tt
  tight-Advanced strip max fuel (c ∷ s) temp h = rw (not_zero (suc (length s)) (omega arith)) (
      on_delim-Advanced strip max (c ∷ s) temp (length s) (find_end_of_parameter fuel (c ∷ s))
        (find_end-shorter fuel c s h))

  Advanced-mono : (n m : ℕ) (x : NextParameter) → Advanced n x → n ≤ m → Advanced m x
  unfolding Advanced
  Advanced-mono n m (success, some t, temp) h le = omega (arith, h, le)
  Advanced-mono n m (success, none, temp) h le = elim h [ ]
  Advanced-mono n m (warning w, t, temp) h le = elim h [ ]
  Advanced-mono n m (error e, t, temp) h le = tt

  get_next-Advanced :
      (strip : Bool) (max : ℕ) (s : List ℕ) (temp : Option (List ℕ))
      → Advanced (length s) (get_next_parameter debug str_n_cpy_s strip max (some s) temp)
  unfolding get_next_parameter Advanced
  get_next-Advanced strip max s none = tt
  get_next-Advanced strip max s (some temp) =
      let walker = skip_leading s in
      Advanced-mono (length walker) (length s) _
        (tight-Advanced strip max (length walker + 1) walker temp (skip_leading-tight s))
        (skip_leading-shrinks s)

abbrev pub Ends {ℓ} : {A : Type ℓ} → Option A → Type 0
Ends none = ⊥
Ends (some a) = Unit

pub and_then-Ends {ℓ κ} :
    {A : Type ℓ} {B : Type κ} (o : Option A) (f : A → Option B)
    → Ends o
    → ((a : A) → Ends (f a))
    → Ends (and_then o f)
and_then-Ends none f h all = elim h [ ]
and_then-Ends (some a) f h all = all a

-- What holds where the walker of a successful call goes on.
rest-Ends {ℓ} :
    {A : Type ℓ} (n : ℕ) (x : NextParameter) (failed : A) (rest : Option A)
    → Advanced n x
    → (((t : List ℕ) → x.1 ≡ some t → length t < n → Ends rest))
    → Ends (if efi_error x.0 then some failed else rest)
unfolding Advanced
rest-Ends n (success, some t, temp) failed rest h all = all t refl h
rest-Ends n (success, none, temp) failed rest h all = elim h [ ]
rest-Ends n (warning w, t, temp) failed rest h all = elim h [ ]
rest-Ends n (error e, t, temp) failed rest h all = tt

if-Ends {ℓ} :
    {A : Type ℓ} (test : Bool) (x y : Option A) → Ends x → Ends y → Ends (if test then x else y)
if-Ends true x y hx hy = hx
if-Ends false x y hx hy = hy

module _ (get_next : Bool → Option (List ℕ) → Option (List ℕ) → NextParameter)
    (advances : (strip : Bool) (s : List ℕ) (temp : Option (List ℕ))
      → Advanced (length s) (get_next strip (some s) temp)) where
  count_loop-Ends :
      (n : ℕ) (s : List ℕ) (temp : Option (List ℕ))
      → length s < n
      → Ends (count_loop get_next n (some s) temp)
  unfolding count_loop
  count_loop-Ends zero s temp h = absurd (omega (arith, h))
  count_loop-Ends (suc n) [] temp h = tt
  count_loop-Ends (suc n) (c ∷ s) temp h =
      let next = get_next true (some (c ∷ s)) temp in
      rest-Ends (suc (length s)) next 0
        (and_then (count_loop get_next n next.1 next.2) (λ count. some (1 + count)))
        (advances true (c ∷ s) temp)
        (λ t e less.
          and_then-Ends (count_loop get_next n next.1 next.2) (λ count. some (1 + count))
            (rw e (count_loop-Ends n t next.2 (omega (arith, h, less)))) (λ count. tt))

  copy_loop-Ends :
      (strip : Bool) (room : ℕ → Bool) (n i : ℕ) (s : List ℕ)
      → length s < n
      → Ends (copy_loop get_next strip room n i (some s))
  unfolding copy_loop
  copy_loop-Ends strip room zero i s h = absurd (omega (arith, h))
  copy_loop-Ends strip room (suc n) i [] h = tt
  copy_loop-Ends strip room (suc n) i (c ∷ s) h =
      let next = get_next strip (some (c ∷ s)) (some []) in
      let more : Option (Status × List (List ℕ)) =
        and_then (copy_loop get_next strip room n (i + 1) next.1)
          (λ end. some (end.0, pointed next.2 ∷ end.1)) in
      rest-Ends (suc (length s)) next (error invalid_parameter, [])
        (if room i then more else some (error out_of_resources, []))
        (advances strip (c ∷ s) (some []))
        (λ t e less.
          if-Ends (room i) more (some (error out_of_resources, []))
            (and_then-Ends (copy_loop get_next strip room n (i + 1) next.1)
              (λ end. some (end.0, pointed next.2 ∷ end.1))
              (rw e (copy_loop-Ends strip room n (i + 1) t (omega (arith, h, less)))) (λ end. tt))
            tt)

module _ (debug : Bool) (str_n_cpy_s : ℕ → List ℕ → ℕ → List ℕ → List ℕ) (pool : Pool) where
  fill_array-Ends :
      (strip : Bool) (line : List ℕ) → Ends (fill_array debug str_n_cpy_s pool strip line)
  unfolding fill_array
  fill_array-Ends strip line =
      let size : ℕ = length line + 1 in
      let get_next = λ (st : Bool). get_next_parameter debug str_n_cpy_s st size in
      let advances = λ (st : Bool). get_next-Advanced debug str_n_cpy_s st size in
      let copied = copy_loop get_next strip pool.room (size + 1) 0 (some line) in
      and_then-Ends (count_loop get_next (size + 1) (some line) (some [])) _
        (count_loop-Ends get_next advances (size + 1) line (some []) (omega arith))
        (λ count.
          if-Ends pool.array_room _ (some (error out_of_resources, no_array))
            (and_then-Ends copied (λ end. some (end.0, given end.1 (length end.1)))
              (copy_loop-Ends get_next advances strip pool.room (size + 1) 0 line (omega arith))
              (λ end. tt))
            tt)

  -- For every command line, every answer of the pool and whatever StrnCpyS does,
  -- ParseCommandLineToArgs ends: neither of its loops is cut off.
  pub parse_command_line_to_args-Ends :
      (line : Option (List ℕ)) (strip : Bool)
      → Ends (parse_command_line_to_args debug str_n_cpy_s pool line strip)
  unfolding parse_command_line_to_args
  parse_command_line_to_args-Ends none strip = tt
  parse_command_line_to_args-Ends (some line) strip =
      if-Ends (length line == 0) (some (success, none_given)) _ tt (
        if-Ends (pool.line_room && pool.temp_room) _ (some (error out_of_resources, kept))
          (fill_array-Ends strip (trim_spaces line)) tt)
