-- ===== src/UefiConsole/Run.antt =====
-- A command line from its text to the handler: RunInternalCommand, RunShellCommand and RunCommand of
-- Drivers/Dxe/UefiConsole/UefiConsole.c, UpdateArgcArgv and RestoreArgcArgv of ConsoleParameters.c,
-- and the exit request of ConsoleCommand.c. StriColl, StrnCpyS and the pool are parameters.
pub mod Dangling
pub mod Handled
pub mod Restored
use uefi_toolkit_pkg.Base.{
  ℕ, ◌+◌, ◌-◌, ◌^◌, bit_or, Bool, true, false, ◌&&◌, not, List, [], ◌∷◌, ◌++◌, Option, none, some,
  and_then, length, take, ltb, ◌==◌, if◌then◌else◌, Status, success, warning, error, other_error,
  out_of_resources, efi_error,
}
use uefi_toolkit_pkg.UefiConsole.Commands.{Sign, Command, Registry, run_command_handler}
use uefi_toolkit_pkg.UefiConsole.CommandLine.{trim_spaces}
use uefi_toolkit_pkg.UefiConsole.CommandLine.Next.{NextParameter, get_next_parameter}
use uefi_toolkit_pkg.UefiConsole.CommandLine.Arguments.{
  Pool, Arguments, kept, no_array, none_given, given, pointed, parse_command_line_to_args,
}

-- EFI_SHELL_PARAMETERS_PROTOCOL: Argv, none for NULL, and Argc; `dangling` says that the array of Argv
-- was freed, and the texts are those it had.
pub record ShellParameters : Type 0 where
  pub argv : Option (List (List ℕ))
  pub argc : ℕ
  pub dangling : Bool

-- What a handler reads and changes: the parameters, mExitRequested, mExitCode and the system. `freed`
-- are the arrays that RestoreArgcArgv gave back, each with its entries.
pub record Console (S : Type 0) : Type 0 where
  pub parameters : ShellParameters
  pub exit_requested : Bool
  pub exit_code : ℕ
  pub freed : List (List (List ℕ))
  pub system : S

pub data ShellOperationTypes : Type 0 where
  internal_command script_file_name efi_application file_sys_change : ShellOperationTypes
  unknown_invalid : ShellOperationTypes

abbrev pub strips_quotation : ShellOperationTypes → Bool
strips_quotation script_file_name = false
strips_quotation _ = true

-- Argv and Argc after ParseCommandLineToArgs.
unfoldable pub with_arguments : ShellParameters → Arguments → ShellParameters
with_arguments p kept = p
with_arguments p no_array = record p { argv = none; dangling = false }
with_arguments p none_given = record { argv = none; argc = 0; dangling = false }
with_arguments p (given texts count) = record { argv = some texts; argc = count; dangling = false }

-- Whether Argv is still the pointer from before: ParseCommandLineToArgs failed before it set *Argv.
unfoldable pub keeps : Arguments → Bool
keeps kept = true
keeps _ = false

-- The parameters from before, put back; when Argv was still theirs, their array was just freed.
unfoldable pub put_back : Bool → ShellParameters → ShellParameters
put_back false old = old
put_back true old = elim old.argv [ none ↦ old | some texts ↦ record old { dangling = true } ]

-- What RestoreArgcArgv frees.
unfoldable pub given_up : ShellParameters → List (List (List ℕ))
given_up p = elim p.argv [ none ↦ [] | some texts ↦ take p.argc texts ∷ [] ]

unfoldable pub starts_hash : List ℕ → Bool
starts_hash [] = false
starts_hash (c ∷ s) = c == 35

-- The loop that takes the escape character off `^#`, behind such an escape or not.
unfoldable pub drop_escapes : Bool → List ℕ → List ℕ
drop_escapes escaped [] = []
drop_escapes true (c ∷ s) = c ∷ drop_escapes false s
drop_escapes false (c ∷ s) =
    let rest = drop_escapes (c == 94 && starts_hash s) s in
    if c == 94 && starts_hash s then rest else c ∷ rest

-- The loop that ends the text at the first `#` that is not escaped.
unfoldable pub cut_comment : Bool → List ℕ → List ℕ
cut_comment escaped [] = []
cut_comment true (c ∷ s) = c ∷ cut_comment false s
cut_comment false (c ∷ s) =
    let rest = c ∷ cut_comment (c == 94 && starts_hash s) s in if c == 35 then [] else rest

-- An EFI_STATUS by its number; of an error the bits below the top one are kept.
unfoldable pub status_of : ℕ → Status
status_of code =
    if code == 0
    then success
    else if ltb code (2 ^ 63)
    then warning code
    else error (other_error (code - 2 ^ 63))

-- *CommandStatus, by its number.
unfoldable pub command_status : ℕ → ℕ
command_status code = if code == 0 then 0 else bit_or code (2 ^ 63)

-- The status, what is written to *CommandStatus, and the console.
abbrev pub Ran : Type 0 → Type 0
Ran S = Status × Option ℕ × Console S

-- ConsoleCommandRegisterExit.
unfoldable pub register_exit : {S : Type 0} → ℕ → Console S → Console S
register_exit code c = record c { exit_requested = not c.exit_requested; exit_code = code }

-- The pool's answers on the way of a command line.
pub record Rooms : Type 0 where
  pub clean_room : Bool
  pub first_room : Bool
  pub copy_room : Bool
  pub arguments : Pool

module _ (debug : Bool) (str_n_cpy_s : ℕ → List ℕ → ℕ → List ℕ → List ℕ) (rooms : Rooms) where
  -- The status, whether Argv is as before, and the parameters.
  unfoldable pub update_argc_argv :
      ShellParameters → List ℕ → ShellOperationTypes → Option (Status × Bool × ShellParameters)
  update_argc_argv p line type =
      and_then
        (parse_command_line_to_args debug str_n_cpy_s rooms.arguments (some line)
          (strips_quotation type))
        (λ parsed. some (parsed.0, keeps parsed.1, with_arguments p parsed.1))

  module _ {S : Type 0} (run : List ℕ → Console S → Status × Option (Bool × ℕ) × Console S) where
    -- The status behind ConsoleCommandRunCommandHandler.
    unfoldable pub on_handler : Status × Option (Bool × ℕ) × Console S → Ran S
    on_handler (status, none, c) = (status, none, c)
    on_handler (status, some (le, code), c) =
        (if c.exit_requested then status_of code else status, some (command_status code), c)

    -- `same` says that ShellParameters->Argv is the array that OldArgv points to. After a handler it is
    -- not: the array is the one that was made for it, or what the handler put there.
    unfoldable pub restore_argc_argv : Bool → ShellParameters → Ran S → Ran S
    restore_argc_argv same old (status, written, c) = (
      status,
      written,
      record c { parameters = put_back same old; freed = given_up c.parameters ++ c.freed },
    )

    unfoldable pub on_update : List ℕ → Console S → Status × Bool × ShellParameters → Ran S
    on_update first c (status, same, p) =
        let started : Console S = record c { parameters = p } in
        restore_argc_argv same c.parameters
          (if efi_error status then (status, none, started) else on_handler (run first started))

    unfoldable pub run_internal_command : List ℕ → List ℕ → Console S → Option (Ran S)
    run_internal_command line first c =
        if rooms.copy_room
        then and_then (update_argc_argv c.parameters (drop_escapes false line) internal_command)
            (λ updated. some (on_update first c updated))
        else some (error out_of_resources, none, c)

    -- From the first parameter on, with the command line clean.
    unfoldable pub run_clean : List ℕ → Console S → Option (Ran S)
    run_clean line c =
        let next : NextParameter =
          get_next_parameter debug str_n_cpy_s true (length line + 1) (some line) (some []) in
        if length line == 0
        then some (success, none, c)
        else if not rooms.first_room
        then some (error out_of_resources, none, c)
        else if efi_error next.0
        then some (success, none, c)
        else run_internal_command line (pointed next.2) c

    unfoldable pub run_shell_command : List ℕ → Console S → Option (Ran S)
    run_shell_command line c =
        if length line == 0
        then some (success, none, c)
        else if rooms.clean_room
        then run_clean (trim_spaces (cut_comment false (trim_spaces line))) c
        else some (error out_of_resources, none, c)
