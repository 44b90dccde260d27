-- ===== src/DebugShell/Command/Session.antt =====
-- RunDebugShell never gets stuck, and keeps every MSR access in range.
use uefi_toolkit_pkg.Base.{
  ℕ, zero, suc, ◌^◌, ◌<◌, ◌≡◌, refl, true, List, [], ◌∷◌, Option, none, some, arith, Bytes, All,
  All-append, length, length-set, take, Bool-cases, Option-cases, inl, inr, c_string,
}
use uefi_toolkit_pkg.DebugShell.Hex.{parse_hex64}
use uefi_toolkit_pkg.DebugShell.Hex.Parse.{parse_hex64_iff}
use uefi_toolkit_pkg.DebugShell.Input.{Editor, edit, read_loop, read_line}
use uefi_toolkit_pkg.DebugShell.Tokens.Words.{words}
use uefi_toolkit_pkg.DebugShell.Command.{
  Access, read_msr, write_msr, World, Platform, print, shell_max_args, Outcome, exited, polling,
  stuck, shell_loop, run_debug_shell,
}
use uefi_toolkit_pkg.DebugShell.Command.Effects.{
  msr_number, read_for, write_for, asked, leaves, print-accesses, process_command-Does,
}

-- An MSR number is 32 bits wide and a written value 64.
abbrev pub InRange : Access → Type 0
InRange (read_msr n) = n < 2 ^ 32
InRange (write_msr n v) = (n < 2 ^ 32) × (v < 2 ^ 64)

parse_hex64-lt : (s : Bytes) (v : ℕ) → parse_hex64 (some s) true ≡ some v → v < 2 ^ 64
parse_hex64-lt s v h = omega (arith, ((parse_hex64_iff s v).0 h).2)

msr_number-lt : (s : Bytes) (n : ℕ) → msr_number s ≡ some n → n < 2 ^ 32
unfolding msr_number
msr_number-lt s n h = ground arith

read_for-InRange : (o : Option ℕ) → ((n : ℕ) → o ≡ some n → n < 2 ^ 32) → All InRange (read_for o)
unfolding read_for
read_for-InRange none h = tt
read_for-InRange (some n) h = (h n refl, tt)

write_for-InRange :
    (o v : Option ℕ)
    → ((n : ℕ) → o ≡ some n → n < 2 ^ 32)
    → ((n : ℕ) → v ≡ some n → n < 2 ^ 64)
    → All InRange (write_for o v)
unfolding write_for
write_for-InRange none v h k = tt
write_for-InRange (some n) none h k = tt
write_for-InRange (some n) (some v) h k = ((h n refl, k v refl), tt)

asked-InRange : (ws : List Bytes) → All InRange (asked ws)
unfolding asked
asked-InRange [] = tt
asked-InRange (name ∷ []) = ground arith
asked-InRange (name ∷ arg ∷ []) =
    ground (arith, read_for-InRange (msr_number arg) (msr_number-lt arg))
asked-InRange (name ∷ arg ∷ value ∷ args) = ground (
  arith,
  read_for-InRange (msr_number arg) (msr_number-lt arg),
  write_for-InRange (msr_number arg) (parse_hex64 (some value) true) (msr_number-lt arg)
      (parse_hex64-lt value),
)

edit-length : (size ch : ℕ) (e : Editor) → length (edit size ch e).buf ≡ length e.buf
unfolding edit
edit-length size ch e = ground (arith, length-set e.buf e.pos ch)

-- A line takes at least the byte that ends it, and the buffer keeps its size.
read_loop-takes :
    (size : ℕ) (input rest : Bytes) (e e' : Editor)
    → read_loop size input e ≡ some (e', rest)
    → (length rest < length input) × (length e'.buf ≡ length e.buf)
unfolding read_loop
read_loop-takes size [] rest e e' h = cc
read_loop-takes size (ch ∷ input) rest e e' h = ground (
  arith,
  length-set e.buf e.pos 0,
  read_loop-takes size input rest (edit size ch e) e',
  edit-length size ch e,
)

read_line-takes :
    (buf input sent rest : Bytes) (e : Editor)
    → read_line (length buf) buf input sent ≡ some (e, rest)
    → (length rest < length input) × (length e.buf ≡ length buf)
unfolding read_line
read_line-takes buf input sent rest e h = read_loop-takes (length buf) input rest _ e h

-- The shell left, or waits for input; either way its MSR accesses are in range.
pub IsSafe : Outcome → Type 0
IsSafe (exited w rest) = All InRange w.accesses
IsSafe (polling w) = All InRange w.accesses
IsSafe stuck = ⊥

shell_loop-IsSafe :
    (p : Platform) (fuel : ℕ) (prompt buf input : Bytes) (w : World)
    → length input < fuel
    → All InRange w.accesses
    → IsSafe (shell_loop p fuel prompt buf input w)
unfolding shell_loop IsSafe
shell_loop-IsSafe p zero prompt buf input w h v = absurd (omega arith)
shell_loop-IsSafe p (suc fuel) prompt buf input w h v =
    elim (Option-cases (read_line (length buf) buf input (print prompt w).sent)) [
      | inl waits ↦ rw (waits, shell_loop) (rw (print-accesses prompt w) v)
      | inr ((e, rest), got) ↦
          let w1 : World = record (print prompt w) { sent = e.sent } in
          let ws = take shell_max_args (words (c_string e.buf)) in
          let (line, w', runs, touched, size) = process_command-Does p e.buf w1 in
          let safe : All InRange w'.accesses = rw touched (
            All-append InRange (print prompt w).accesses (asked ws) (rw (print-accesses prompt w) v)
              (asked-InRange ws)) in
          let less = (read_line-takes buf input (print prompt w).sent rest e got).0 in
          elim (Bool-cases (leaves ws)) [
            | inl leave ↦ rw (got, runs, leave, shell_loop) safe
            | inr stay ↦
                rw (got, runs, stay, shell_loop)
                  (shell_loop-IsSafe p fuel prompt line rest w' (omega arith) safe)
          ]
    ]

-- From a world with no MSR access, RunDebugShell either leaves or waits for input, whatever bytes
-- arrive: the fuel is enough, each MSR access names a 32-bit MSR, and each written value has 64 bits.
pub run_debug_shell-IsSafe :
    (p : Platform) (prompt : Option Bytes) (buf input : Bytes) (w : World)
    → w.accesses ≡ []
    → IsSafe (run_debug_shell p prompt buf input w)
unfolding run_debug_shell
run_debug_shell-IsSafe p prompt buf input w fresh =
    shell_loop-IsSafe p (suc (length input)) _ buf input _ (omega arith)
      (simp (print-accesses, fresh) tt)
