-- ===== src/DebugShell/Tokens/Words.antt =====
-- ShellTokenize finds the words of its line.
use uefi_toolkit_pkg.Base.{
  ℕ, zero, suc, ◌<◌, ◌≡◌, refl, sym, subst, ap₂, ◌∙◌, true, false, ◌||◌, List, [], ◌∷◌, ◌++◌, map,
  append_assoc, append-nil, Option, some, arith, Bytes, Lacks, length, take, drop, ◌==◌,
  if◌then◌else◌, c_string, drop-append, length-append,
}
use uefi_toolkit_pkg.DebugShell.Tokens.{is_blank, at_nul, skip_blanks, skip_word, tokenize_loop}

abbrev begin_word : ℕ → List Bytes → List Bytes
begin_word c ws = (c ∷ []) ∷ ws

abbrev grow_word : ℕ → List Bytes → List Bytes
grow_word c [] = (c ∷ []) ∷ []
grow_word c (w ∷ ws) = (c ∷ w) ∷ ws

-- The words of a text: its longest pieces without blanks.
abbrev pub words : Bytes → List Bytes
words [] = []
words (c ∷ []) = if is_blank c then [] else begin_word c []
words (c ∷ d ∷ s) =
    if is_blank c
    then words (d ∷ s)
    else if is_blank d
    then begin_word c (words (d ∷ s))
    else grow_word c (words (d ∷ s))

pub skip_blanks-append : (s : Bytes) → (skip_blanks s).0 ++ (skip_blanks s).1 ≡ s
unfolding skip_blanks
skip_blanks-append [] = refl
skip_blanks-append (c ∷ s) = ground (arith, skip_blanks-append s)

pub skip_word-append : (s : Bytes) → (skip_word s).0 ++ (skip_word s).1 ≡ s
unfolding skip_word
skip_word-append [] = refl
skip_word-append (c ∷ s) = ground (arith, skip_word-append s)

pub words_blank : (c : ℕ) (s : Bytes) → is_blank c ≡ true → words (c ∷ s) ≡ words s
words_blank c [] h = rw h
words_blank c (d ∷ s) h = rw h

pub words-skip_blanks : (s : Bytes) → words (c_string (skip_blanks s).1) ≡ words (c_string s)
unfolding skip_blanks c_string
words-skip_blanks [] = refl
words-skip_blanks (c ∷ s) = ground (arith, words-skip_blanks s, words_blank c (c_string s))

-- Where the word loop stops: at the end of the string or at a blank.
abbrev pub Stops : Bytes → Type 0
Stops [] = Unit
Stops (c ∷ s) = (c == 0 || is_blank c) ≡ true

abbrev pub Starts : Bytes → Type 0
Starts [] = ⊥
Starts (c ∷ s) = (c == 0 || is_blank c) ≡ false

pub skip_word-Stops : (s : Bytes) → Stops (skip_word s).1
unfolding skip_word
skip_word-Stops [] = tt
skip_word-Stops (c ∷ s) = ground (arith, skip_word-Stops s)

pub skip_word-Lacks : (s : Bytes) → Lacks 0 (skip_word s).0
unfolding skip_word
skip_word-Lacks [] = tt
skip_word-Lacks (c ∷ s) = ground (arith, skip_word-Lacks s)

pub skip_blanks-Starts : (s : Bytes) → at_nul (skip_blanks s).1 ≡ false → Starts (skip_blanks s).1
unfolding skip_blanks at_nul
skip_blanks-Starts [] h = cc
skip_blanks-Starts (c ∷ s) h = ground (arith, skip_blanks-Starts s)

pub words-skip_word :
    (s : Bytes) → Starts s → words (c_string s) ≡ (skip_word s).0 ∷ words (c_string (skip_word s).1)
unfolding skip_word c_string
words-skip_word [] h = absurd h
words-skip_word (c ∷ []) h = ground arith
words-skip_word (c ∷ d ∷ s) h = ground (arith, words-skip_word (d ∷ s))

pub at_nul-c_string : (s : Bytes) → at_nul s ≡ true → c_string s ≡ []
unfolding at_nul c_string
at_nul-c_string [] h = refl
at_nul-c_string (c ∷ s) h = rw h

-- A word that ends in a NUL is what a C string pointer to its start reads.
c_string_ended : (w s : Bytes) → Lacks 0 w → at_nul s ≡ true → c_string (w ++ s) ≡ w
unfolding c_string
c_string_ended [] s h e = at_nul-c_string s e
c_string_ended (c ∷ w) s h e = ground (arith, c_string_ended w s h.1 e)

-- What the loop leaves: `before` as it was, a tail of the same size as the line, and offsets at
-- which C string pointers read the wanted words.
pub record Finds (before line : Bytes) (argv : List ℕ) (wanted : List Bytes)
    (r : Option (Bytes × List ℕ)) : Type 0 where
  pub tail : Bytes
  pub offsets : List ℕ
  pub returns : r ≡ some (before ++ tail, argv ++ offsets)
  pub found : map (λ o. c_string (drop o (before ++ tail))) offsets ≡ wanted
  pub sized : length tail ≡ length line

pub same_line :
    {before line line' : Bytes} {argv : List ℕ} {wanted : List Bytes} {r : Option (Bytes × List ℕ)}
    → line ≡ line'
    → Finds before line argv wanted r
    → Finds before line' argv wanted r
same_line e f = rw e at f

take-nil : (n : ℕ) → take n (words []) ≡ []
take-nil zero = refl
take-nil (suc n) = refl

-- No word is left.
pub ended-Finds :
    (before line : Bytes) (argv : List ℕ) (n : ℕ)
    → words (c_string line) ≡ []
    → Finds before line argv (take n (words (c_string line))) (some (before ++ line, argv))
ended-Finds before line argv n h = record {
  tail = line;
  offsets = [];
  returns = rw append-nil;
  found = rw h (sym (take-nil n));
  sized = refl;
}

pub full-Finds :
    (before line : Bytes) (argv : List ℕ) (n : ℕ) (ws : List Bytes)
    → n ≡ 0
    → Finds before line argv (take n ws) (some (before ++ line, argv))
full-Finds before line argv n ws h = record {
  tail = line;
  offsets = [];
  returns = rw append-nil;
  found = rw h refl;
  sized = refl;
}

-- The loop stops at once at the end of the string.
pub loop_ended :
    (fuel : ℕ) (before line : Bytes) (argv : List ℕ) (n : ℕ)
    → 0 < fuel
    → at_nul line ≡ true
    → tokenize_loop fuel before line argv n ≡ some (before ++ line, argv)
unfolding tokenize_loop
loop_ended zero before line argv n h e = absurd (omega arith)
loop_ended (suc fuel) before line argv n h e = rw e

module _ (before blanks word stop : Bytes) (argv : List ℕ) (clean : Lacks 0 word) where
  regroup : (xs : Bytes) → before ++ ((blanks ++ word) ++ xs) ≡ (before ++ blanks) ++ (word ++ xs)
  regroup xs = simp append_assoc

  -- The pointer to a word reads it, if a NUL follows it.
  reads_word :
      (xs : Bytes)
      → at_nul xs ≡ true
      → c_string (drop (length (before ++ blanks)) (before ++ ((blanks ++ word) ++ xs))) ≡ word
  reads_word xs e =
      rw (regroup xs, drop-append (before ++ blanks) (word ++ xs)) (c_string_ended word xs clean e)

  pub word_last :
      (k : ℕ)
      → at_nul stop ≡ true
      → Finds before
          ((blanks ++ word) ++ stop)
          argv
          (take (suc k) (word ∷ words (c_string stop)))
          (some ((before ++ (blanks ++ word)) ++ stop, argv ++ length (before ++ blanks) ∷ []))
  word_last k e = record {
    tail = (blanks ++ word) ++ stop;
    offsets = length (before ++ blanks) ∷ [];
    returns = simp append_assoc;
    found = rw (reads_word stop e, at_nul-c_string stop e, take-nil k) refl;
    sized = refl;
  }

  pub word_then :
      (b : ℕ) (s : Bytes) (ws : List Bytes) (r : Option (Bytes × List ℕ))
      → Finds
          ((before ++ (blanks ++ word)) ++ 0 ∷ [])
          s
          (argv ++ length (before ++ blanks) ∷ [])
          ws
          r
      → Finds before ((blanks ++ word) ++ b ∷ s) argv (word ∷ ws) r
  unfolding at_nul
  word_then b s ws r ih = record {
    tail = (blanks ++ word) ++ 0 ∷ ih.tail;
    offsets = length (before ++ blanks) ∷ ih.offsets;
    returns = ih.returns ∙ simp append_assoc;
    found =
        ap₂ ◌∷◌ (reads_word (0 ∷ ih.tail) refl)
          (subst (λ all. map (λ o. c_string (drop o all)) ih.offsets ≡ ws) whole ih.found);
    sized = omega (
      arith,
      ih.sized,
      length-append (blanks ++ word) (0 ∷ ih.tail),
      length-append (blanks ++ word) (b ∷ s),
    );
  }
    where
      whole :
          ((before ++ (blanks ++ word)) ++ 0 ∷ []) ++ ih.tail
          ≡ before ++ ((blanks ++ word) ++ 0 ∷ ih.tail)
      whole = simp append_assoc
