-- ===== src/UefiConsole/Monitor/Balance.antt =====
-- What the monitor of UefiConsole.c takes and gives back.
use uefi_toolkit_pkg.Base.{
  ℕ, zero, suc, ◌+◌, ◌≡◌, refl, sym, ap, ◌∙◌, true, false, List, [], ◌∷◌, ◌++◌, append_assoc,
  append-nil, Option, if◌then◌else◌, Status, success, efi_error, Bool-cases, inl, inr,
}
use uefi_toolkit_pkg.UefiConsole.Monitor.{
  Action, registers, unregisters, creates, signals, cancels, closes, Monitor, Calls, none_set,
  register_keys, create_timer, uefi_console_start_monitor, given_back, uefi_console_stop_monitor,
}

-- What takes back each of some actions, in their order.
unfoldable pub undo : List Action → List Action
undo [] = []
undo (registers n ∷ xs) = unregisters n ∷ undo xs
undo (creates ∷ xs) = cancels ∷ closes ∷ undo xs
undo (unregisters n ∷ xs) = undo xs
undo (signals ∷ xs) = undo xs
undo (cancels ∷ xs) = undo xs
undo (closes ∷ xs) = undo xs

undo-append : (xs ys : List Action) → undo (xs ++ ys) ≡ undo xs ++ undo ys
unfolding undo
undo-append [] ys = refl
undo-append (registers n ∷ xs) ys = ap (◌∷◌ (unregisters n)) (undo-append xs ys)
undo-append (creates ∷ xs) ys = ap (λ xs. cancels ∷ closes ∷ xs) (undo-append xs ys)
undo-append (unregisters n ∷ xs) ys = undo-append xs ys
undo-append (signals ∷ xs) ys = undo-append xs ys
undo-append (cancels ∷ xs) ys = undo-append xs ys
undo-append (closes ∷ xs) ys = undo-append xs ys

-- The state at the start of the driver.
abbrev pub idle : Monitor
idle = record { handles = none_set; timer = false; actions = [] }

module _ (calls : Calls) where
  undo-register_keys :
      (left n : ℕ) (status : Status)
      → undo (register_keys calls left n status).1
        ≡ given_back calls (register_keys calls left n status).0
  unfolding register_keys undo
  undo-register_keys zero n status = refl
  undo-register_keys (suc left) n status = elim (Bool-cases (efi_error status)) [
    | inl before ↦ rw before (undo-register_keys left (n + 1) status)
    | inr fine ↦ elim (Bool-cases (efi_error (calls.register_key n))) [
      | inl failed ↦ rw (fine, failed) (undo-register_keys left (n + 1) (calls.register_key n))
      | inr done ↦
          rw (fine, done)
            (ap (◌∷◌ (unregisters n)) (undo-register_keys left (n + 1) (calls.register_key n)))
    ]
  ]

  -- The keys that StartMonitor registers, and their handles.
  abbrev keys : List (Option ℕ) × List Action × Status
  keys = register_keys calls 4 0 success

  abbrev keyed : Monitor
  keyed = record { handles = keys.0; timer = false; actions = keys.1 }

  abbrev Taken : Monitor → Type 0
  Taken m =
      given_back calls m.handles ++ (if m.timer then cancels ∷ closes ∷ [] else []) ≡ undo m.actions

  keyed-Taken : Taken keyed
  keyed-Taken = append-nil (given_back calls keys.0) ∙ sym (undo-register_keys 4 0 success)

  create_timer-Taken : (status : Status) → Taken (create_timer calls keyed status).1
  unfolding create_timer register_keys undo
  create_timer-Taken status = elim (Bool-cases (efi_error status)) [
    | inl before ↦ rw before keyed-Taken
    | inr fine ↦ elim (Bool-cases (efi_error calls.create_event)) [
      | inl failed ↦ rw (fine, failed) keyed-Taken
      | inr done ↦ rw (fine, done) timed
    ]
  ]
    where
      timed :
          given_back calls keys.0 ++ cancels ∷ closes ∷ [] ≡ undo (keys.1 ++ creates ∷ signals ∷ [])
      timed =
          ap (λ xs. xs ++ cancels ∷ closes ∷ []) (sym (undo-register_keys 4 0 success))
          ∙ sym (undo-append keys.1 (creates ∷ signals ∷ []))

  stopped :
      (m : Monitor)
      → efi_error calls.open_protocol ≡ false
      → (uefi_console_stop_monitor calls m).1.actions
        ≡ m.actions ++ given_back calls m.handles ++ (if m.timer then cancels ∷ closes ∷ [] else [])
  unfolding uefi_console_stop_monitor
  stopped m there = rw there refl

  started :
      efi_error calls.open_protocol ≡ false
      → (uefi_console_start_monitor calls idle).1 ≡ (create_timer calls keyed keys.2).1
  unfolding uefi_console_start_monitor
  started there = rw there refl

  stopped_none :
      efi_error calls.open_protocol ≡ true → (uefi_console_start_monitor calls idle).1 ≡ idle
  unfolding uefi_console_start_monitor
  stopped_none missing = rw missing refl

  idle_stopped :
      efi_error calls.open_protocol ≡ true → (uefi_console_stop_monitor calls idle).1.actions ≡ []
  unfolding uefi_console_stop_monitor
  idle_stopped missing = rw missing refl

  stop_all :
      (m : Monitor)
      → efi_error calls.open_protocol ≡ false
      → Taken m
      → (uefi_console_stop_monitor calls m).1.actions ≡ m.actions ++ undo m.actions
  stop_all m there taken =
      stopped m there
      ∙ append_assoc m.actions (given_back calls m.handles)
          (if m.timer then cancels ∷ closes ∷ [] else [])
      ∙ ap (λ xs. m.actions ++ xs) taken

  -- Whatever OpenProtocol, RegisterKeyNotify, CreateEvent and SignalEvent return, OpenProtocol the
  -- same both times, UefiConsoleStopMonitor behind UefiConsoleStartMonitor takes back exactly what was
  -- taken: it unregisters the keys that were registered, in their order, and cancels and closes the
  -- timer if it was created.
  pub stop_monitor-start_monitor :
      (uefi_console_stop_monitor calls (uefi_console_start_monitor calls idle).1).1.actions
      ≡ (uefi_console_start_monitor calls idle).1.actions
        ++ undo (uefi_console_start_monitor calls idle).1.actions
  unfolding undo
  stop_monitor-start_monitor = elim (Bool-cases (efi_error calls.open_protocol)) [
    | inl missing ↦
        ap (λ (m : Monitor). (uefi_console_stop_monitor calls m).1.actions) (stopped_none missing)
        ∙ idle_stopped missing
        ∙ sym (ap (λ (m : Monitor). m.actions ++ undo m.actions) (stopped_none missing) ∙ undo_idle)
    | inr there ↦
        ap (λ (m : Monitor). (uefi_console_stop_monitor calls m).1.actions) (started there)
        ∙ stop_all (create_timer calls keyed keys.2).1 there (create_timer-Taken keys.2)
        ∙ sym (ap (λ (m : Monitor). m.actions ++ undo m.actions) (started there))
  ]
    where
      undo_idle : undo [] ≡ []
      undo_idle = undo-append [] []
