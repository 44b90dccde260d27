-- ===== src/UefiConsole/Run/Restored.antt =====
-- RunShellCommand of Drivers/Dxe/UefiConsole/UefiConsole.c ends, and when it leaves the shell parameters
-- as they were.
use uefi_toolkit_pkg.Base.{
  ℕ, ◌+◌, ◌≡◌, ◌⊎◌, inl, inr, refl, Bool, true, false, ◌&&◌, not, List, [], Option, none, some,
  and_then, length, ◌==◌, if◌then◌else◌, Status, success, error, out_of_resources, efi_error,
}
use uefi_toolkit_pkg.UefiConsole.CommandLine.{trim_spaces}
use uefi_toolkit_pkg.UefiConsole.CommandLine.Next.{get_next_parameter}
use uefi_toolkit_pkg.UefiConsole.CommandLine.Arguments.{
  Arguments, given, no_array, pointed, count_loop, copy_loop, fill_array,
  parse_command_line_to_args,
}
use uefi_toolkit_pkg.UefiConsole.CommandLine.Arguments.Ends.{
  Ends, and_then-Ends, parse_command_line_to_args-Ends,
}
use uefi_toolkit_pkg.UefiConsole.Run.{
  ShellParameters, Console, Ran, Rooms, strips_quotation, with_arguments, keeps, put_back,
  cut_comment, drop_escapes, ShellOperationTypes, internal_command, update_argc_argv,
  restore_argc_argv, on_update, run_internal_command, run_clean, run_shell_command,
}

-- Something that holds of a result, if there is one.
abbrev Whenever {ℓ κ} : {A : Type ℓ} → (A → Type κ) → Option A → Type κ
Whenever P none = Unit
Whenever P (some a) = P a

and_then-Whenever {ℓ κ μ} :
    {A : Type ℓ} {B : Type κ} (P : B → Type μ) (o : Option A) (f : A → Option B)
    → ((a : A) → Whenever P (f a))
    → Whenever P (and_then o f)
and_then-Whenever P none f all = tt
and_then-Whenever P (some a) f all = all a

if-Whenever {ℓ κ} :
    {A : Type ℓ} (P : A → Type κ) (test : Bool) (x y : Option A)
    → Whenever P x
    → Whenever P y
    → Whenever P (if test then x else y)
if-Whenever P true x y hx hy = hx
if-Whenever P false x y hx hy = hy

-- ParseCommandLineToArgs has set *Argv.
abbrev Sets : Status × Arguments → Type 0
Sets parsed = keeps parsed.1 ≡ false

module _ {S : Type 0} (p : ShellParameters) where
  -- A run that ended, with the parameters `p`.
  abbrev pub Restores : Option (Ran S) → Type 0
  Restores none = ⊥
  Restores (some r) = r.2.parameters ≡ p

  if-Restores :
      (test : Bool) (x y : Option (Ran S))
      → Restores x
      → Restores y
      → Restores (if test then x else y)
  if-Restores true x y hx hy = hx
  if-Restores false x y hx hy = hy

  and_then-Restores {κ} :
      {A : Type κ} (P : A → Type 0) (o : Option A) (f : A → Option (Ran S))
      → Ends o
      → Whenever P o
      → ((a : A) → P a → Restores (f a))
      → Restores (and_then o f)
  and_then-Restores P none f h met all = elim h [ ]
  and_then-Restores P (some a) f h met all = all a met

put_back_null : (same : Bool) (p : ShellParameters) → p.argv ≡ none → put_back same p ≡ p
unfolding put_back
put_back_null false p null = refl
put_back_null true p null = rw null refl

module _ (debug : Bool) (str_n_cpy_s : ℕ → List ℕ → ℕ → List ℕ → List ℕ) (rooms : Rooms) where
  -- The pool has room for NewCommandLine and TempParameter.
  abbrev pub parses : Bool
  parses = rooms.arguments.line_room && rooms.arguments.temp_room

  fill_array-Sets :
      (strip : Bool) (line : List ℕ)
      → Whenever Sets (fill_array debug str_n_cpy_s rooms.arguments strip line)
  unfolding fill_array keeps
  fill_array-Sets strip line =
      let size : ℕ = length line + 1 in
      let get_next = λ (st : Bool). get_next_parameter debug str_n_cpy_s st size in
      let copied = copy_loop get_next strip rooms.arguments.room (size + 1) 0 (some line) in
      and_then-Whenever Sets (count_loop get_next (size + 1) (some line) (some [])) _ (λ count.
        if-Whenever Sets rooms.arguments.array_room _ (some (error out_of_resources, no_array))
          (and_then-Whenever Sets copied (λ end. some (end.0, given end.1 (length end.1)))
            (λ end. refl))
          refl)

  parse-Sets :
      (line : List ℕ) (strip : Bool)
      → parses ≡ true
      → Whenever Sets
          (parse_command_line_to_args debug str_n_cpy_s rooms.arguments (some line) strip)
  unfolding parse_command_line_to_args keeps
  parse-Sets line strip room =
      rw room
        (if-Whenever Sets (length line == 0) _ _ refl (fill_array-Sets strip (trim_spaces line)))

  -- What UpdateArgcArgv leaves is taken back without harm.
  abbrev Restorable : ShellParameters → Status × Bool × ShellParameters → Type 0
  Restorable p updated = put_back updated.1 p ≡ p

  set_Restorable :
      (p : ShellParameters) (o : Option (Status × Arguments))
      → Whenever Sets o
      → Whenever
          (Restorable p)
          (and_then o (λ parsed. some (parsed.0, keeps parsed.1, with_arguments p parsed.1)))
  unfolding put_back
  set_Restorable p none sets = tt
  set_Restorable p (some parsed) sets = rw sets refl

  update_argc_argv-Restorable :
      (p : ShellParameters) (line : List ℕ) (type : ShellOperationTypes)
      → (p.argv ≡ none) ⊎ (parses ≡ true)
      → Whenever (Restorable p) (update_argc_argv debug str_n_cpy_s rooms p line type)
  unfolding update_argc_argv put_back
  update_argc_argv-Restorable p line type (inl null) =
      and_then-Whenever (Restorable p)
        (parse_command_line_to_args debug str_n_cpy_s rooms.arguments (some line)
          (strips_quotation type))
        (λ parsed. some (parsed.0, keeps parsed.1, with_arguments p parsed.1))
        (λ parsed. put_back_null (keeps parsed.1) p null)
  update_argc_argv-Restorable p line type (inr room) =
      set_Restorable p
        (parse_command_line_to_args debug str_n_cpy_s rooms.arguments (some line)
          (strips_quotation type))
        (parse-Sets line (strips_quotation type) room)

  update_argc_argv-Ends :
      (p : ShellParameters) (line : List ℕ) (type : ShellOperationTypes)
      → Ends (update_argc_argv debug str_n_cpy_s rooms p line type)
  unfolding update_argc_argv
  update_argc_argv-Ends p line type =
      let ends =
        parse_command_line_to_args-Ends debug str_n_cpy_s rooms.arguments (some line)
          (strips_quotation type) in
      and_then-Ends
        (parse_command_line_to_args debug str_n_cpy_s rooms.arguments (some line)
          (strips_quotation type))
        (λ parsed. some (parsed.0, keeps parsed.1, with_arguments p parsed.1)) ends (λ parsed. tt)

  module _ {S : Type 0} (run : List ℕ → Console S → Status × Option (Bool × ℕ) × Console S) where
    on_update-parameters :
        (first : List ℕ) (c : Console S) (u : Status × Bool × ShellParameters)
        → Restorable c.parameters u
        → (on_update debug str_n_cpy_s rooms run first c u).2.parameters ≡ c.parameters
    unfolding on_update restore_argc_argv
    on_update-parameters first c u same = same

    run_internal_command-Restores :
        (line first : List ℕ) (c : Console S)
        → (c.parameters.argv ≡ none) ⊎ (parses ≡ true)
        → Restores c.parameters (run_internal_command debug str_n_cpy_s rooms run line first c)
    unfolding run_internal_command
    run_internal_command-Restores line first c safe =
        if-Restores c.parameters rooms.copy_room _ (some (error out_of_resources, none, c))
          (and_then-Restores c.parameters (Restorable c.parameters)
            (update_argc_argv debug str_n_cpy_s rooms c.parameters (drop_escapes false line)
              internal_command)
            (λ updated. some (on_update debug str_n_cpy_s rooms run first c updated))
            (update_argc_argv-Ends c.parameters (drop_escapes false line) internal_command)
            (update_argc_argv-Restorable c.parameters (drop_escapes false line) internal_command
              safe)
            (on_update-parameters first c))
          refl

    run_clean-Restores :
        (line : List ℕ) (c : Console S)
        → (c.parameters.argv ≡ none) ⊎ (parses ≡ true)
        → Restores c.parameters (run_clean debug str_n_cpy_s rooms run line c)
    unfolding run_clean
    run_clean-Restores line c safe =
        let next =
          get_next_parameter debug str_n_cpy_s true (length line + 1) (some line) (some []) in
        if-Restores c.parameters (length line == 0) (some (success, none, c)) _ refl (
          if-Restores c.parameters (not rooms.first_room) (some (error out_of_resources, none, c)) _
            refl
            (if-Restores c.parameters (efi_error next.0) (some (success, none, c)) _ refl
              (run_internal_command-Restores line (pointed next.2) c safe)))

    -- When Argv of EFI_SHELL_PARAMETERS_PROTOCOL is NULL, or the pool has room for NewCommandLine and
    -- TempParameter of ParseCommandLineToArgs: for every command line, every other answer of the pool
    -- and whatever the handler does (but put the array from before into Argv itself), RunShellCommand
    -- ends, and the protocol has the Argv and Argc from before, Argv pointing to memory that was freed
    -- only if it did so before. The parameters that a command runs with, and what its handler writes
    -- there, do not stay.
    pub run_shell_command-Restores :
        (line : List ℕ) (c : Console S)
        → (c.parameters.argv ≡ none) ⊎ (parses ≡ true)
        → Restores c.parameters (run_shell_command debug str_n_cpy_s rooms run line c)
    unfolding run_shell_command
    run_shell_command-Restores line c safe =
        if-Restores c.parameters (length line == 0) (some (success, none, c)) _ refl (
          if-Restores c.parameters rooms.clean_room _ (some (error out_of_resources, none, c))
            (run_clean-Restores (trim_spaces (cut_comment false (trim_spaces line))) c safe) refl)
