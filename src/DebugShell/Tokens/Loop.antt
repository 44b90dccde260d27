-- ===== src/DebugShell/Tokens/Loop.antt =====
-- ShellTokenize as a whole: its loop, round by round.
use uefi_toolkit_pkg.Base.{
  ℕ, zero, suc, ◌-◌, ◌≤◌, ◌<◌, ◌≡◌, refl, sym, subst, ap, ap₂, ◌∙◌, inl, inr, true, false, ◌||◌,
  List, [], ◌∷◌, ◌++◌, append_assoc, some, arith, Bytes, Lacks, length, take, leb, ◌==◌, c_string,
  Bool-cases, length-append,
}
use uefi_toolkit_pkg.DebugShell.Tokens.{
  is_blank, at_nul, skip_blanks, skip_word, cut, tokenize_loop, tokenize,
}
use uefi_toolkit_pkg.DebugShell.Tokens.Words.{
  words, skip_blanks-append, skip_word-append, words_blank, words-skip_blanks, Stops, Starts,
  skip_word-Stops, skip_word-Lacks, skip_blanks-Starts, words-skip_word, at_nul-c_string, Finds,
  same_line, ended-Finds, full-Finds, loop_ended, word_last, word_then,
}

at_nul-Starts : (s : Bytes) → Starts s → 0 < length (skip_word s).0
unfolding skip_word
at_nul-Starts [] h = absurd h
at_nul-Starts (c ∷ s) h = rw h (omega arith)

blank_end :
    (b : ℕ) (s : Bytes)
    → (b == 0) ≡ false
    → is_blank b ≡ true
    → words (c_string (b ∷ s)) ≡ words (c_string s)
unfolding c_string
blank_end b s h e = rw h (words_blank b (c_string s) e)

-- The rest of the loop after one word.
after_word :
    (fuel : ℕ) (before blanks word stop : Bytes) (argv : List ℕ) (k max_args : ℕ)
    → Lacks 0 word
    → Stops stop
    → length stop < fuel
    → max_args - length argv ≡ suc k
    → ((before' line' : Bytes) (argv' : List ℕ)
        → length line' < fuel
        → Finds before' line' argv'
            (take (max_args - length argv') (words (c_string line')))
            (tokenize_loop fuel before' line' argv' max_args))
    → Finds before ((blanks ++ word) ++ stop) argv (take (suc k) (word ∷ words (c_string stop))) (
        tokenize_loop fuel
          (cut (before ++ (blanks ++ word)) stop).0
          (cut (before ++ (blanks ++ word)) stop).1
          (argv ++ length (before ++ blanks) ∷ [])
          max_args)
unfolding cut at_nul
after_word fuel before blanks word [] argv k max_args clean stops small left ih =
    rw
      (loop_ended fuel (before ++ (blanks ++ word)) [] (argv ++ length (before ++ blanks) ∷ [])
        max_args (omega arith) refl)
      (word_last before blanks word [] argv clean k refl)
after_word fuel before blanks word (b ∷ s) argv k max_args clean stops small left ih =
    elim (Bool-cases (b == 0)) [
      | inl ends ↦
          rw
            (
              ends,
              loop_ended fuel (before ++ (blanks ++ word)) (b ∷ s)
                  (argv ++ length (before ++ blanks) ∷ []) max_args (omega arith) ends,
            )
            (word_last before blanks word (b ∷ s) argv clean k ends)
      | inr more ↦
          let rest : take k (words (c_string (b ∷ s)))
              ≡ take (max_args - length (argv ++ length (before ++ blanks) ∷ []))
                  (words (c_string s)) =
            ap₂ take (omega (arith, length-append argv (length (before ++ blanks) ∷ [])))
              (blank_end b s more (ground arith)) in
          rw (more, rest)
            (word_then before blanks word (b ∷ s) argv clean b s _ _ (
              ih ((before ++ (blanks ++ word)) ++ 0 ∷ []) s (argv ++ length (before ++ blanks) ∷ [])
                (omega arith)))
    ]

stopped-Finds :
    (before line : Bytes) (argv : List ℕ) (max_args : ℕ)
    → (at_nul line || leb max_args (length argv)) ≡ true
    → Finds before line argv
        (take (max_args - length argv) (words (c_string line)))
        (some (before ++ line, argv))
stopped-Finds before line argv max_args h = elim (Bool-cases (at_nul line)) [
  | inl ends ↦ ended-Finds before line argv _ (rw (at_nul-c_string line ends) refl)
  | inr more ↦ full-Finds before line argv _ _ (ground arith)
]

no_words : (s : Bytes) → at_nul (skip_blanks s).1 ≡ true → words (c_string s) ≡ []
no_words s h = sym (words-skip_blanks s) ∙ ap words (at_nul-c_string (skip_blanks s).1 h)

-- One round of the loop that finds a word, with the rest of the loop as a hypothesis.
moved-Finds :
    (fuel : ℕ) (before line : Bytes) (argv : List ℕ) (max_args : ℕ)
    → at_nul (skip_blanks line).1 ≡ false
    → length line ≤ fuel
    → length argv < max_args
    → ((before' line' : Bytes) (argv' : List ℕ)
        → length line' < fuel
        → Finds before' line' argv'
            (take (max_args - length argv') (words (c_string line')))
            (tokenize_loop fuel before' line' argv' max_args))
    → Finds before line argv (take (max_args - length argv) (words (c_string line))) (
        tokenize_loop fuel
          (cut
            (before ++ ((skip_blanks line).0 ++ (skip_word (skip_blanks line).1).0))
            (skip_word (skip_blanks line).1).1).0
          (cut
            (before ++ ((skip_blanks line).0 ++ (skip_word (skip_blanks line).1).0))
            (skip_word (skip_blanks line).1).1).1
          (argv ++ length (before ++ (skip_blanks line).0) ∷ [])
          max_args)
moved-Finds fuel before line argv max_args h small room ih =
    let blanks = (skip_blanks line).0 in
    let start = (skip_blanks line).1 in
    let word = (skip_word start).0 in
    let stop = (skip_word start).1 in
    let whole : (blanks ++ word) ++ stop ≡ line =
      append_assoc blanks word stop
      ∙ ap (◌++◌ blanks) (skip_word-append start)
      ∙ skip_blanks-append line in
    let first : words (c_string line) ≡ word ∷ words (c_string stop) =
      sym (words-skip_blanks line) ∙ words-skip_word start (skip_blanks-Starts line h) in
    let left : max_args - length argv ≡ suc (max_args - length argv - 1) = omega arith in
    let less : length stop < fuel = omega (
      arith,
      ap length whole,
      length-append (blanks ++ word) stop,
      length-append blanks word,
      at_nul-Starts start (skip_blanks-Starts line h),
    ) in
    rw (first, left)
      (same_line whole (
        after_word fuel before blanks word stop argv (max_args - length argv - 1) max_args
          (skip_word-Lacks start) (skip_word-Stops start) less left ih))

tokenize_loop-Finds :
    (fuel : ℕ) (before line : Bytes) (argv : List ℕ) (max_args : ℕ)
    → length line < fuel
    → Finds before line argv
        (take (max_args - length argv) (words (c_string line)))
        (tokenize_loop fuel before line argv max_args)
unfolding tokenize_loop
tokenize_loop-Finds zero before line argv max_args h = absurd (omega arith)
tokenize_loop-Finds (suc fuel) before line argv max_args h =
    elim (Bool-cases (at_nul line || leb max_args (length argv))) [
      | inl stop ↦ rw stop (stopped-Finds before line argv max_args stop)
      | inr go ↦ elim (Bool-cases (at_nul (skip_blanks line).1)) [
        | inl blank ↦ rw (go, blank) (ended-Finds before line argv _ (no_words line blank))
        | inr word ↦
            rw (go, word)
              (moved-Finds fuel before line argv max_args word (omega arith) (ground arith)
                (λ before' line' argv' small.
                  tokenize_loop-Finds fuel before' line' argv' max_args small))
      ]
    ]

-- ShellTokenize returns on every line. With the blanks it replaced by NULs, the pointers in Argv
-- read the words of the line, in order, MaxArgs of them at most; the line keeps its size.
pub tokenize-Finds :
    (line : Bytes) (max_args : ℕ)
    → Finds [] line [] (take max_args (words (c_string line))) (tokenize line max_args)
unfolding tokenize
tokenize-Finds line max_args =
    subst
      (λ n.
        Finds [] line [] (take n (words (c_string line)))
          (tokenize_loop (suc (length line)) [] line [] max_args))
      (omega arith) (tokenize_loop-Finds (suc (length line)) [] line [] max_args (omega arith))
