-- ===== src/DebugShell/Command/Effects.antt =====
-- What one command line does: which MSRs it touches, and whether it leaves the shell.
use uefi_toolkit_pkg.Base.{
  ℕ, suc, ◌^◌, ◌≡◌, refl, sym, ap, subst, ◌∙◌, inl, inr, Bool, true, false, List, [], ◌∷◌, ◌++◌,
  append-nil, Option, none, some, arith, Bytes, length, take, ltb, ◌==◌, if◌then◌else◌, c_string,
  codes, same_text, same_text-eq, same_text_self, Bool-cases, Option-cases,
}
use uefi_toolkit_pkg.DebugShell.Hex.{parse_hex64}
use uefi_toolkit_pkg.DebugShell.Tokens.Words.{words}
use uefi_toolkit_pkg.DebugShell.Tokens.Loop.{tokenize-Finds}
use uefi_toolkit_pkg.DebugShell.Command.{
  Access, read_msr, write_msr, World, Platform, print, show_hex64, cmd_help, report_bad, msr_index,
  bad_index, bad_value, cmd_read_msr, cmd_write_msr, dispatch, run_words, process_command,
  shell_max_args,
}

-- The MSR number that an argument names: a hex number of 32 bits.
unfoldable pub msr_number : Bytes → Option ℕ
msr_number arg = elim (parse_hex64 (some arg) true) [
  | none ↦ none
  | some n ↦ if ltb n (2 ^ 32) then some n else none
]

unfoldable pub read_for : Option ℕ → List Access
read_for none = []
read_for (some n) = read_msr n ∷ []

unfoldable pub write_for : Option ℕ → Option ℕ → List Access
write_for none v = []
write_for (some n) none = []
write_for (some n) (some v) = write_msr n v ∷ []

abbrev pub read_accesses : List Bytes → List Access
read_accesses [] = []
read_accesses (arg ∷ rest) = read_for (msr_number arg)

abbrev pub write_accesses : List Bytes → List Access
write_accesses [] = []
write_accesses (arg ∷ []) = []
write_accesses (arg ∷ value ∷ rest) = write_for (msr_number arg) (parse_hex64 (some value) true)

-- The MSR accesses that the words of a line ask for.
unfoldable pub asked : List Bytes → List Access
unfolding read_for write_for
asked [] = []
asked (name ∷ args) =
    if same_text name (codes "readmsr")
    then read_accesses args
    else if same_text name (codes "writemsr")
    then write_accesses args
    else []

abbrev pub leaves : List Bytes → Bool
leaves [] = false
leaves (name ∷ args) = same_text name (codes "exit")

str_cmp-same_text : (p : Platform) (a b : Bytes) → (p.str_cmp a b == 0) ≡ same_text a b
str_cmp-same_text p a b = elim (Bool-cases (same_text a b)) [
  | inl same ↦ rw same (ground (arith, (p.str_cmp_zero a b).1 (same_text-eq a b same)))
  | inr other ↦ elim (Bool-cases (p.str_cmp a b == 0)) [
    | inr differ ↦ differ ∙ sym other
    | inl zero ↦
        let equal = (p.str_cmp_zero a b).0 (ground arith) in
        let self : same_text a b ≡ true =
          subst (λ t. same_text a t ≡ true) equal (same_text_self a) in
        cc
  ]
]

pub print-accesses : (s : Bytes) (w : World) → (print s w).accesses ≡ w.accesses
unfolding print
print-accesses s w = ground arith

show_hex64-accesses : (v : ℕ) (w : World) → (show_hex64 v w).accesses ≡ w.accesses
unfolding show_hex64
show_hex64-accesses v w = print-accesses _ w

cmd_help-accesses : (w : World) → (cmd_help w).accesses ≡ w.accesses
unfolding cmd_help
cmd_help-accesses w =
    print-accesses _ _
    ∙ print-accesses _ _
    ∙ print-accesses _ _
    ∙ print-accesses _ _
    ∙ print-accesses _ w

ruleset quiet = (print-accesses, show_hex64-accesses)

report_bad-accesses : (what arg : Bytes) (w : World) → (report_bad what arg w).accesses ≡ w.accesses
unfolding report_bad
report_bad-accesses what arg w = print-accesses _ _ ∙ print-accesses arg _ ∙ print-accesses what w

msr_index-number : (arg : Bytes) → msr_index arg ≡ msr_number arg
unfolding msr_index msr_number
msr_index-number arg = ground arith

cmd_read_msr-accesses :
    (p : Platform) (name : Bytes) (args : List Bytes) (w : World)
    → (cmd_read_msr p (length (name ∷ args)) (name ∷ args) w).accesses
      ≡ w.accesses ++ read_accesses args
unfolding cmd_read_msr read_for
cmd_read_msr-accesses p name [] w = simp (print-accesses, append-nil)
cmd_read_msr-accesses p name (arg ∷ args) w =
    let enough : ltb (suc (suc (length args))) 2 ≡ false = ground arith in
    elim (Option-cases (msr_number arg)) [
      | inl bad ↦
          rw (enough, msr_index-number arg, bad)
            (report_bad-accesses bad_index arg w ∙ sym (append-nil w.accesses))
      | inr (n, good) ↦ rw (enough, msr_index-number arg, good) (simp quiet)
    ]

cmd_write_msr-accesses :
    (name : Bytes) (args : List Bytes) (w : World)
    → (cmd_write_msr (length (name ∷ args)) (name ∷ args) w).accesses
      ≡ w.accesses ++ write_accesses args
unfolding cmd_write_msr write_for
cmd_write_msr-accesses name [] w = simp (print-accesses, append-nil)
cmd_write_msr-accesses name (arg ∷ []) w = simp (print-accesses, append-nil)
cmd_write_msr-accesses name (arg ∷ value ∷ args) w =
    let enough : ltb (suc (suc (suc (length args)))) 3 ≡ false = ground arith in
    elim (Option-cases (msr_number arg)) [
      | inl bad ↦
          rw (enough, msr_index-number arg, bad)
            (report_bad-accesses bad_index arg w ∙ sym (append-nil w.accesses))
      | inr (n, good) ↦ elim (Option-cases (parse_hex64 (some value) true)) [
        | inl bad ↦
            rw (enough, msr_index-number arg, good, bad)
              (report_bad-accesses bad_value value w ∙ sym (append-nil w.accesses))
        | inr (v, number) ↦ rw (enough, msr_index-number arg, good, number) (simp quiet)
      ]
    ]

-- What a dispatched line does: its accesses and its flag.
Does : World → List Bytes → World × Bool → Type 0
Does w ws r = (r.0.accesses ≡ w.accesses ++ asked ws) × (r.1 ≡ leaves ws)

dispatch-Does :
    (p : Platform) (name : Bytes) (args : List Bytes) (w : World)
    → Does w (name ∷ args) (dispatch p name (name ∷ args) w)
unfolding dispatch Does asked same_text
dispatch-Does p name args w =
    rw
      (
        str_cmp-same_text p name (codes "help"),
        str_cmp-same_text p name (codes "readmsr"),
        str_cmp-same_text p name (codes "writemsr"),
        str_cmp-same_text p name (codes "exit"),
      )
      (elim (Bool-cases (same_text name (codes "help"))) [
        | inl e ↦
            rw (same_text-eq name (codes "help") e) (cmd_help-accesses w ∙ sym (append-nil _), refl)
        | inr n1 ↦ elim (Bool-cases (same_text name (codes "readmsr"))) [
          | inl e ↦
              rw (same_text-eq name (codes "readmsr") e)
                (cmd_read_msr-accesses p (codes "readmsr") args w, refl)
          | inr n2 ↦ elim (Bool-cases (same_text name (codes "writemsr"))) [
            | inl e ↦
                rw (same_text-eq name (codes "writemsr") e)
                  (cmd_write_msr-accesses (codes "writemsr") args w, refl)
            | inr n3 ↦ elim (Bool-cases (same_text name (codes "exit"))) [
              | inl e ↦ rw (n1, n2, n3, e) (print-accesses _ w ∙ sym (append-nil _), refl)
              | inr n4 ↦
                  rw (n1, n2, n3, n4)
                    (
                      print-accesses _ _
                          ∙ print-accesses name _
                          ∙ print-accesses _ w
                          ∙ sym (append-nil _),
                      refl,
                    )
            ]
          ]
        ]
      ])

run_words-Does : (p : Platform) (ws : List Bytes) (w : World) → Does w ws (run_words p ws w)
unfolding run_words
run_words-Does p [] w = unfold Does asked in (sym (append-nil w.accesses), refl)
run_words-Does p (name ∷ args) w = dispatch-Does p name args w

-- A command line always runs to its end: of its first eight words, `readmsr` and `writemsr` with
-- valid numbers make their one MSR access, every other line makes none, the shell is left exactly
-- on `exit`, and the line buffer keeps its size.
pub process_command-Does :
    (p : Platform) (line : Bytes) (w : World)
    → let ws = take shell_max_args (words (c_string line)) in
      (line' : Bytes) × (w' : World) × (process_command p line w ≡ some (line', w', leaves ws))
      × (w'.accesses ≡ w.accesses ++ asked ws)
      × (length line' ≡ length line)
unfolding process_command Does
process_command-Does p line w =
    let ws = take shell_max_args (words (c_string line)) in
    let f = tokenize-Finds line shell_max_args in
    let done = run_words-Does p ws w in
    (
      f.tail,
      (run_words p ws w).0,
      rw (f.returns, process_command)
          (ap (λ vs. some (f.tail, (run_words p vs w).0, (run_words p vs w).1)) f.found
            ∙ ap (λ b. some (f.tail, (run_words p ws w).0, b)) done.1),
      done.0,
      f.sized,
    )
