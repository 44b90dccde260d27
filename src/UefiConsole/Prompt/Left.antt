-- ===== src/UefiConsole/Prompt/Left.antt =====
-- How NotificationFunction of Drivers/Dxe/UefiConsole/UefiConsole.c leaves the prompts.
use uefi_toolkit_pkg.Base.{
  ℕ, ◌≡◌, ◌⊎◌, refl, subst, Bool, true, false, List, [], ◌∷◌, Option, none, some, and_then, set,
  c_string, ◌/◌, Status, error, out_of_resources, efi_error, if◌then◌else◌, Bool-cases, inl, inr,
}
use uefi_toolkit_pkg.UefiConsole.InputLine.{KeyStroke}
use uefi_toolkit_pkg.UefiConsole.InRead.{InRead, in_wait, returns, is_not_ready}
use uefi_toolkit_pkg.UefiConsole.Monitor.{is_console_request}
use uefi_toolkit_pkg.UefiConsole.Run.{ShellParameters, Console, Ran, Rooms, run_shell_command}
use uefi_toolkit_pkg.UefiConsole.Run.Restored.{Restores, parses, run_shell_command-Restores}
use uefi_toolkit_pkg.UefiConsole.Prompt.{
  Terminal, Prompted, waiting, prompted, Notified, other_key, too_early, still_prompting,
  console_left, on_read, do_console_prompt, after_prompt, prompt_loop, notification_function,
}

module _ {S : Type 0} (p : ShellParameters) where
  abbrev Keeps : Option (Prompted S) → Type 0
  Keeps none = Unit
  Keeps (some waiting) = Unit
  Keeps (some (prompted status history c)) = c.parameters ≡ p

  -- When the prompts are left, an exit was requested, and the parameters are `p`.
  abbrev pub Leaves : Option (Notified S) → Type 0
  Leaves none = Unit
  Leaves (some other_key) = Unit
  Leaves (some too_early) = Unit
  Leaves (some still_prompting) = Unit
  Leaves (some (console_left history c)) = (c.exit_requested ≡ true) × (c.parameters ≡ p)

  if-Keeps :
      (test : Bool) (x y : Option (Prompted S)) → Keeps x → Keeps y → Keeps (if test then x else y)
  if-Keeps true x y hx hy = hx
  if-Keeps false x y hx hy = hy

  if-Leaves :
      (history : List (List ℕ)) (c : Console S) (next : Option (Notified S))
      → c.parameters ≡ p
      → Leaves next
      → Leaves (if c.exit_requested then some (console_left history c) else next)
  if-Leaves history c next same rest = elim (Bool-cases c.exit_requested) [
    | inl leaves ↦ simp leaves (refl, same)
    | inr stays ↦ simp stays rest
  ]

  module _ (run : List ℕ → Console S → Option (Ran S)) where
    on_run-Keeps :
        (history : List (List ℕ)) (o : Option (Ran S))
        → Restores p o
        → Keeps (and_then o (λ r. some (prompted r.0 history r.2)))
    on_run-Keeps history none h = tt
    on_run-Keeps history (some r) h = h

    on_read-Keeps :
        (c : Console S) (o : Option InRead)
        → c.parameters ≡ p
        → ((line : List ℕ) → Restores p (run line c))
        → Keeps (and_then o (on_read run c))
    on_read-Keeps c none same restores = tt
    on_read-Keeps c (some in_wait) same restores = tt
    on_read-Keeps c (some (returns status size buffer history)) same restores =
        elim (Bool-cases (efi_error status)) [
          | inl failed ↦ rw failed same
          | inr fine ↦ rw fine (
              on_run-Keeps history (run (c_string (set buffer (size / 2) 0)) c)
                (restores (c_string (set buffer (size / 2) 0))))
        ]

    do_console_prompt-Keeps :
        (t : Terminal) (history : List (List ℕ)) (keys : List KeyStroke) (c : Console S)
        → c.parameters ≡ p
        → ((line : List ℕ) → Restores p (run line c))
        → Keeps (do_console_prompt run t history keys c)
    unfolding do_console_prompt
    do_console_prompt-Keeps t history keys c same restores =
        if-Keeps t.line_room _ (some (prompted (error out_of_resources) history c))
          (on_read-Keeps c _ same restores) same

    after_prompt-Leaves :
        (next : List (List ℕ) → Console S → Option (Notified S)) (o : Option (Prompted S))
        → Keeps o
        → ((history : List (List ℕ)) (c : Console S) → c.parameters ≡ p → Leaves (next history c))
        → Leaves (and_then o (after_prompt run next))
    after_prompt-Leaves next none h rest = tt
    after_prompt-Leaves next (some waiting) h rest = tt
    after_prompt-Leaves next (some (prompted status history c)) h rest =
        if-Leaves history c (next history c) h (rest history c h)

    prompt_loop-Leaves :
        (prompts : List (Terminal × List KeyStroke)) (history : List (List ℕ)) (c : Console S)
        → ((line : List ℕ) (d : Console S) → d.parameters ≡ p → Restores p (run line d))
        → c.parameters ≡ p
        → Leaves (prompt_loop run prompts history c)
    unfolding prompt_loop
    prompt_loop-Leaves [] history c restores same = tt
    prompt_loop-Leaves ((t, keys) ∷ prompts) history c restores same =
        after_prompt-Leaves (prompt_loop run prompts) (do_console_prompt run t history keys c)
          (do_console_prompt-Keeps t history keys c same (λ line. restores line c same))
          (λ h d e. prompt_loop-Leaves prompts h d restores e)

module _ (debug : Bool) (str_n_cpy_s : ℕ → List ℕ → ℕ → List ℕ → List ℕ) (rooms : Rooms)
    {S : Type 0} (run : List ℕ → Console S → Status × Option (Bool × ℕ) × Console S) where
  command : List ℕ → Console S → Option (Ran S)
  command = run_shell_command debug str_n_cpy_s rooms run

  command-Restores :
      (p : ShellParameters)
      → (p.argv ≡ none) ⊎ (parses debug str_n_cpy_s rooms ≡ true)
      → (line : List ℕ) (c : Console S) → c.parameters ≡ p
      → Restores p (command line c)
  unfolding command
  command-Restores p safe line c same =
      subst
        (λ q.
          (q.argv ≡ none) ⊎ (parses debug str_n_cpy_s rooms ≡ true)
          → Restores q (run_shell_command debug str_n_cpy_s rooms run line c))
        same (run_shell_command-Restores debug str_n_cpy_s rooms run line c) safe

  -- When Argv is NULL, or the pool has room for NewCommandLine and TempParameter: whatever is typed
  -- at any number of prompts and whatever the handlers do, NotificationFunction
  -- leaves the prompts only with an exit requested, although it takes back a request from before,
  -- and the shell parameters are then those from before.
  pub notification_function-Leaves :
      (unicode_char key_shift_state : ℕ) (checked : Status)
      (prompts : List (Terminal × List KeyStroke)) (history : List (List ℕ)) (c : Console S)
      → (c.parameters.argv ≡ none) ⊎ (parses debug str_n_cpy_s rooms ≡ true)
      → Leaves c.parameters (
          notification_function
            (run_shell_command debug str_n_cpy_s rooms run)
            unicode_char
            key_shift_state
            checked
            prompts
            history
            c)
  unfolding notification_function command
  notification_function-Leaves unicode_char key_shift_state checked prompts history c safe =
      elim (Bool-cases (is_console_request unicode_char key_shift_state)) [
        | inl request ↦ elim (Bool-cases (is_not_ready checked)) [
          | inl early ↦ rw (request, early) tt
          | inr due ↦
              rw (request, due)
                (prompt_loop-Leaves c.parameters (run_shell_command debug str_n_cpy_s rooms run)
                  prompts history (record c { exit_requested = false })
                  (command-Restores c.parameters safe) refl)
        ]
        | inr other ↦ rw other tt
      ]
