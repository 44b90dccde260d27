-- ===== src/UefiConsole/Package/Read.antt =====
-- What a command reads of its package, ConsoleCommandLineGetRawValue, -GetCount, -GetValue and
-- -GetFlag of Drivers/Dxe/UefiConsole/ConsoleParameters.c, for a command line of whole pieces.
use uefi_toolkit_pkg.Base.{
  ℕ, zero, suc, ◌+◌, ◌-◌, ◌^◌, ◌<◌, ◌≡◌, ◌∙◌, refl, ap, subst, Bool, true, false, List, [], ◌∷◌,
  ◌++◌, All, map, Option, none, some, length, ◌==◌, if_true, if_false, success, arith,
}
use uefi_toolkit_pkg.UefiConsole.CommandLine.Next.Escaped.{not_zero}
use uefi_toolkit_pkg.UefiConsole.Package.{
  ParamItem, Param, Compare, PackagePool, unescaped, command_line_parse, on_named, find_named,
  get_flag, get_value, find_position, get_raw_value, get_count,
}
use uefi_toolkit_pkg.UefiConsole.Package.Pieces.{
  Piece, option, positional, line_words, node_of, nodes, Whole, pieces_loop,
}

-- The positional parameters of a command line.
unfoldable pub positions : List Piece → List (List ℕ)
positions [] = []
positions (option name type values ∷ pieces) = positions pieces
positions (positional text ∷ pieces) = unescaped text ∷ positions pieces

unfoldable pub at_or : List (List ℕ) → ℕ → Option (List ℕ) → Option (List ℕ)
at_or [] k other = other
at_or (t ∷ ts) zero other = some t
at_or (t ∷ ts) (suc k) other = at_or ts k other

differ : (a b : ℕ) → a < b → (b == a) ≡ false
differ a b h = ground (arith, h)

same_number : (a : ℕ) → (a == a) ≡ true
same_number a = ground arith

find_position-below :
    (pieces : List Piece) (n i : ℕ) (ps : List Param)
    → i < n
    → i < 2 ^ 64 - 1
    → find_position i (nodes n pieces ps) ≡ find_position i ps
unfolding find_position nodes
find_position-below [] n i ps h small = refl
find_position-below (option name type values ∷ pieces) n i ps h small =
    find_position-below pieces n i (node_of n (option name type values) ∷ ps) h small
    ∙ rw (differ i (2 ^ 64 - 1) small) refl
find_position-below (positional text ∷ pieces) n i ps h small =
    find_position-below pieces (n + 1) i (node_of n (positional text) ∷ ps) (omega (arith, h)) small
    ∙ rw (differ i n h) refl

find_position-nodes :
    (pieces : List Piece) (n k : ℕ) (ps : List Param)
    → n + k < 2 ^ 64 - 1
    → find_position (n + k) (nodes n pieces ps)
      ≡ at_or (positions pieces) k (find_position (n + k) ps)
unfolding find_position nodes positions at_or
find_position-nodes [] n k ps h = refl
find_position-nodes (option name type values ∷ pieces) n k ps h =
    find_position-nodes pieces n k (node_of n (option name type values) ∷ ps) h
    ∙ rw (differ (n + k) (2 ^ 64 - 1) h) refl
find_position-nodes (positional text ∷ pieces) n zero ps h =
    let here : n + 0 ≡ n = omega arith in
    rw (here) (
      find_position-below pieces (n + 1) n (node_of n (positional text) ∷ ps) (omega arith)
        (omega (arith, h))
      ∙ rw (same_number n) refl)
find_position-nodes (positional text ∷ pieces) n (suc k) ps h =
    let there : n + suc k ≡ (n + 1) + k = omega arith in
    let other : (n == (n + 1) + k) ≡ false = ground arith in
    rw there (
      find_position-nodes pieces (n + 1) k (node_of n (positional text) ∷ ps) (omega (arith, h))
      ∙ rw other refl)

get_count-nodes :
    (pieces : List Piece) (n : ℕ) (ps : List Param)
    → get_count (some (nodes n pieces ps)) ≡ length (positions pieces) + get_count (some ps)
unfolding get_count nodes positions
get_count-nodes [] n ps = omega arith
get_count-nodes (option name type values ∷ pieces) n ps =
    get_count-nodes pieces n (node_of n (option name type values) ∷ ps)
get_count-nodes (positional text ∷ pieces) n ps =
    get_count-nodes pieces (n + 1) (node_of n (positional text) ∷ ps) ∙ omega arith

find_position-items :
    (pieces : List Piece) (i : ℕ)
    → i < 2 ^ 64 - 1
    → get_raw_value (some (nodes 0 pieces [])) i ≡ at_or (positions pieces) i none
unfolding get_raw_value find_position
find_position-items pieces i h =
    let start : 0 + i ≡ i = omega arith in
    subst (λ j. find_position j (nodes 0 pieces []) ≡ at_or (positions pieces) i none) start
      (find_position-nodes pieces 0 i [] (omega (arith, h)))

some_words :
    (piece : Piece) (pieces : List Piece) → (length (line_words (piece ∷ pieces)) == 0) ≡ false
unfolding line_words
some_words (option name type values) pieces =
    not_zero (suc (length (map some values ++ line_words pieces))) (omega arith)
some_words (positional text) pieces = not_zero (suc (length (line_words pieces))) (omega arith)

module _ (compare : Compare) (pool : PackagePool) where
  -- The last option that a key names, from what it named before; and what that option has.
  unfoldable pub last_named :
      List ℕ → List Piece → Option (Option (List ℕ)) → Option (Option (List ℕ))
  last_named key [] before = before
  last_named key (positional text ∷ pieces) before = last_named key pieces before
  last_named key (option name type values ∷ pieces) before =
      last_named key pieces
        (elim (on_named compare pool key (node_of 0 (option name type values)) name) [
          | none ↦ before
          | some value ↦ some value
        ])

  find_named-nodes :
      (key : List ℕ) (pieces : List Piece) (n : ℕ) (ps : List Param)
      → find_named compare pool key (nodes n pieces ps)
        ≡ last_named key pieces (find_named compare pool key ps)
  unfolding find_named nodes last_named
  find_named-nodes key [] n ps = refl
  find_named-nodes key (option name type values ∷ pieces) n ps =
      find_named-nodes key pieces n (node_of n (option name type values) ∷ ps)
  find_named-nodes key (positional text ∷ pieces) n ps =
      find_named-nodes key pieces (n + 1) (node_of n (positional text) ∷ ps)

abbrev pub value_named : Option (Option (List ℕ)) → Option (List ℕ)
value_named none = none
value_named (some value) = value

abbrev pub is_named : Option (Option (List ℕ)) → Bool
is_named none = false
is_named (some value) = true

-- A package from which a command reads what the pieces of the command line say.
pub record Reads (compare : Compare) (pool : PackagePool) (pieces : List Piece) (items : List Param)
    : Type 0 where
  pub raw :
      (i : ℕ) → i < 2 ^ 64 - 1 → get_raw_value (some items) i ≡ at_or (positions pieces) i none
  pub counted : get_count (some items) ≡ length (positions pieces)
  pub valued :
      (key : List ℕ)
      → get_value compare pool (some items) (some key)
        ≡ value_named (last_named compare pool key pieces none)
  pub flagged :
      (key : List ℕ)
      → get_flag compare pool (some items) (some key)
        ≡ is_named (last_named compare pool key pieces none)

module _ (compare : Compare) (pool : PackagePool) where
  get_value-named :
      (items : List Param) (key : List ℕ)
      → get_value compare pool (some items) (some key)
        ≡ value_named (find_named compare pool key items)
  unfolding get_value
  get_value-named items key =
      elim (find_named compare pool key items)
        as (λ o.
          (elim o as (λ _. Option (List ℕ)) [ none ↦ none | some value ↦ value ]) ≡ value_named o) [
            | none ↦ refl
            | some value ↦ refl
          ]

  get_flag-named :
      (items : List Param) (key : List ℕ)
      → get_flag compare pool (some items) (some key) ≡ is_named (find_named compare pool key items)
  unfolding get_flag
  get_flag-named items key =
      elim (find_named compare pool key items)
        as (λ o. (elim o as (λ _. Bool) [ none ↦ false | some value ↦ true ]) ≡ is_named o) [
          | none ↦ refl
          | some value ↦ refl
        ]

  nodes-Reads : (pieces : List Piece) → Reads compare pool pieces (nodes 0 pieces [])
  unfolding get_raw_value get_count find_position find_named
  nodes-Reads pieces = record {
    raw = find_position-items pieces;
    counted = get_count-nodes pieces 0 [] ∙ omega arith;
    valued = λ key.
        get_value-named (nodes 0 pieces []) key
        ∙ ap value_named (find_named-nodes compare pool key pieces 0 []);
    flagged = λ key.
        get_flag-named (nodes 0 pieces []) key
        ∙ ap is_named (find_named-nodes compare pool key pieces 0 []);
  }

  -- For a command line of one or more pieces, each an option on the check list with as many values
  -- as its type wants, or a positional parameter that is no flag: when the pool has room,
  -- ConsoleInternalCommandLineParse succeeds, also if an option is given more than once, and its
  -- package gives the positional parameters by their number (without an escape character before a
  -- sign) and none above it, their count, and for a key the values of the last option of that name,
  -- with spaces between them, or nothing.
  pub command_line_parse-Reads :
      (check_list : List ParamItem) (allow : Bool) (piece : Piece) (pieces : List Piece)
      → pool.head_room ≡ true
      → ((i : ℕ) → pool.node_room i ≡ true)
      → ((i : ℕ) → pool.text_room i ≡ true)
      → All (Whole compare pool check_list allow) (piece ∷ pieces)
      → (items : List Param) × (command_line_parse compare pool check_list allow
            (line_words (piece ∷ pieces))
          ≡ (success, some items, none))
        × Reads compare pool (piece ∷ pieces) items
  unfolding command_line_parse
  command_line_parse-Reads check_list allow piece pieces head node_room text_room whole =
      let items = nodes 0 (piece ∷ pieces) [] in
      let parsed =
        pieces_loop compare pool check_list allow node_room text_room (piece ∷ pieces) 0 [] none 0 0
          whole in
      (
        items,
        if_false _ _ _ (some_words piece pieces) ∙ if_true _ _ _ head ∙ parsed,
        nodes-Reads (piece ∷ pieces),
      )
