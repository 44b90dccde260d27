-- ===== src/UefiConsole/Package/Pieces.antt =====
-- What ConsoleInternalCommandLineParse of Drivers/Dxe/UefiConsole/ConsoleParameters.c makes of a
-- command line of options with their values and of positional parameters.
use uefi_toolkit_pkg.Base.{
  ℕ, suc, ◌+◌, ◌-◌, ◌*◌, ◌^◌, ◌<◌, ◌≡◌, refl, ap, ◌∙◌, Bool, true, false, List, [], ◌∷◌, ◌++◌, All,
  map, Option, none, some, length, ◌==◌, if◌then◌else◌, Status, success, arith,
}
use uefi_toolkit_pkg.UefiConsole.CommandLine.Next.Escaped.{not_zero}
use uefi_toolkit_pkg.UefiConsole.Package.{
  ParamType, goes_on, type_position, ParamItem, Param, Compare, PackagePool, Parsing, is_time,
  values_wanted, is_flag, is_on_check_list, on_known, joined_value, on_value, unescaped,
  on_position, on_other, on_unknown, on_checked, on_argument, argument_loop,
}

-- An option with its values, or a positional parameter.
pub data Piece : Type 0 where
  option : List ℕ → ParamType → List (List ℕ) → Piece
  positional : List ℕ → Piece

abbrev pub words : Piece → List (List ℕ)
words (option name type values) = name ∷ values
words (positional text) = text ∷ []

unfoldable pub line_words : List Piece → List (Option (List ℕ))
line_words [] = []
line_words (piece ∷ pieces) = map some (words piece) ++ line_words pieces

-- The values with a space between them.
unfoldable pub spaced : List ℕ → List (List ℕ) → List ℕ
spaced v [] = v
spaced v (u ∷ us) = spaced (v ++ (32 ∷ u)) us

abbrev pub value_of : List (List ℕ) → Option (List ℕ)
value_of [] = none
value_of (v ∷ vs) = some (spaced v vs)

-- The node of a piece behind `n` positional parameters.
abbrev pub node_of : ℕ → Piece → Param
node_of n (option name type values) = record {
  name = some name;
  type = type;
  value = value_of values;
  original_position = 2 ^ 64 - 1;
}
node_of n (positional text) = record {
  name = none;
  type = type_position;
  value = some (unescaped text);
  original_position = n;
}

abbrev pub next_position : ℕ → Piece → ℕ
next_position n (option name type values) = n
next_position n (positional text) = n + 1

-- The nodes of the pieces, the last one first, on top of a list.
unfoldable pub nodes : ℕ → List Piece → List Param → List Param
nodes n [] ps = ps
nodes n (piece ∷ pieces) ps = nodes (next_position n piece) pieces (node_of n piece ∷ ps)

module _ (compare : Compare) (pool : PackagePool) (check_list : List ParamItem) (allow : Bool) where
  -- A text that is neither on the check list nor a flag.
  abbrev pub Plain : Bool → List ℕ → Type 0
  Plain time text =
      (is_on_check_list compare pool check_list text ≡ none) × (is_flag text allow time ≡ false)

  -- An option that has all its values, or a positional parameter.
  abbrev pub Whole : Piece → Type 0
  Whole (option name type values) =
      (is_on_check_list compare pool check_list name ≡ some type)
      × (values_wanted type ≡ length values)
      × All (Plain (is_time type)) values
  Whole (positional text) = Plain false text

  abbrev pub LoopResult : Type 0
  LoopResult = Status × Option (List Param) × Option (List ℕ)

  abbrev pub loop : ℕ → List (Option (List ℕ)) → Parsing → LoopResult
  loop = argument_loop compare pool check_list allow

  abbrev pub state : List Param → Option Param → ℕ → ℕ → ℕ → Parsing
  state ps current get size n = record {
    params = ps;
    current = current;
    get_item_value = get;
    value_size = size;
    count = n;
  }

  abbrev pending : List ℕ → ParamType → Option (List ℕ) → Param
  pending name type value = record {
    name = some name;
    type = type;
    value = value;
    original_position = 2 ^ 64 - 1;
  }

  module _ (node_room : (i : ℕ) → pool.node_room i ≡ true)
      (text_room : (i : ℕ) → pool.text_room i ≡ true) where
    checked :
        (i : ℕ) (p : Parsing) (text : List ℕ) (o : Option ParamType)
        → is_on_check_list compare pool check_list text ≡ o
        → on_argument compare pool check_list allow i p (some text)
          ≡ on_checked compare pool check_list allow i p text o
    unfolding on_argument
    checked i p text o h = ap (on_checked compare pool check_list allow i p text) h

    fill_value :
        (i : ℕ) (ps : List Param) (name : List ℕ) (type : ParamType) (value : Option (List ℕ))
        (get size n : ℕ) (u : List ℕ)
        → Plain (is_time type) u
        → on_argument compare pool check_list allow i
            (state ps (some (pending name type value)) (suc get) size n)
            (some u)
          ≡ goes_on (
              state
                (if get == 0 then pending name type (some (joined_value size value u)) ∷ ps else ps)
                (some (pending name type (some (joined_value size value u))))
                get
                (size + 2 * (length u + 1) + 2)
                n)
    unfolding on_checked on_unknown on_value
    fill_value i ps name type value get size n u plain =
        let more : (suc get == 0) ≡ false = not_zero (suc get) (omega arith) in
        let left : suc get - 1 ≡ get = omega arith in
        checked i (state ps (some (pending name type value)) (suc get) size n) u none plain.0
        ∙ rw (more, plain.1, text_room i, left) refl

    -- The values of a pending option, and what follows them.
    fill_values :
        (us : List (List ℕ)) (u : List ℕ) (i : ℕ) (ps : List Param) (name : List ℕ)
        (type : ParamType) (v : List ℕ) (size n : ℕ) (rest : List (Option (List ℕ)))
        (r : LoopResult)
        → Plain (is_time type) u
        → All (Plain (is_time type)) us
        → 0 < size
        → ((j : ℕ) (current : Option Param) (z : ℕ)
            → loop j rest
                (state (pending name type (some (spaced (v ++ (32 ∷ u)) us)) ∷ ps) current 0 z n)
              ≡ r)
        → loop i
            (some u ∷ (map some us ++ rest))
            (state ps (some (pending name type (some v))) (suc (length us)) size n)
          ≡ r
    unfolding argument_loop spaced
    fill_values [] u i ps name type v size n rest r plain all some_size next =
        let sized : (size == 0) ≡ false = not_zero size some_size in
        rw (fill_value i ps name type (some v) 0 size n u plain, sized)
          (next (i + 1) (some (pending name type (some (v ++ (32 ∷ u)))))
            (size + 2 * (length u + 1) + 2))
    fill_values (w ∷ us) u i ps name type v size n rest r plain all some_size next =
        let sized : (size == 0) ≡ false = not_zero size some_size in
        let more : (suc (length us) == 0) ≡ false = not_zero (suc (length us)) (omega arith) in
        rw (fill_value i ps name type (some v) (suc (length us)) size n u plain, sized, more)
          (fill_values us w (i + 1) ps name type (v ++ (32 ∷ u)) (size + 2 * (length u + 1) + 2) n
            rest r all.0 all.1 (omega arith) next)

    first_value :
        (us : List (List ℕ)) (u : List ℕ) (i : ℕ) (ps : List Param) (name : List ℕ)
        (type : ParamType) (n : ℕ) (rest : List (Option (List ℕ))) (r : LoopResult)
        → Plain (is_time type) u
        → All (Plain (is_time type)) us
        → ((j : ℕ) (current : Option Param) (z : ℕ)
            → loop j rest (state (pending name type (some (spaced u us)) ∷ ps) current 0 z n) ≡ r)
        → loop i
            (some u ∷ (map some us ++ rest))
            (state ps (some (pending name type none)) (suc (length us)) 0 n)
          ≡ r
    unfolding argument_loop spaced
    first_value [] u i ps name type n rest r plain all next =
        rw (fill_value i ps name type none 0 0 n u plain)
          (next (i + 1) (some (pending name type (some u))) (0 + 2 * (length u + 1) + 2))
    first_value (w ∷ us) u i ps name type n rest r plain all next =
        let more : (suc (length us) == 0) ≡ false = not_zero (suc (length us)) (omega arith) in
        rw (fill_value i ps name type none (suc (length us)) 0 n u plain, more)
          (fill_values us w (i + 1) ps name type u (0 + 2 * (length u + 1) + 2) n rest r all.0 all.1
            (omega arith) next)

    known_step :
        (i : ℕ) (ps : List Param) (current : Option Param) (z n : ℕ) (name : List ℕ)
        (type : ParamType)
        → is_on_check_list compare pool check_list name ≡ some type
        → on_argument compare pool check_list allow i (state ps current 0 z n) (some name)
          ≡ goes_on (
              if values_wanted type == 0
              then state (pending name type none ∷ ps) (some (pending name type none)) 0 z n
              else state ps (some (pending name type none)) (values_wanted type) 0 n)
    unfolding on_checked on_known
    known_step i ps current z n name type h =
        checked i (state ps current 0 z n) name (some type) h ∙ rw (node_room i, text_room i) refl

    position_step :
        (i : ℕ) (ps : List Param) (current : Option Param) (z n : ℕ) (text : List ℕ)
        → Plain false text
        → on_argument compare pool check_list allow i (state ps current 0 z n) (some text)
          ≡ goes_on (
              state
                (node_of n (positional text) ∷ ps)
                (some (node_of n (positional text)))
                0
                z
                (n + 1))
    unfolding on_checked on_unknown on_other on_position
    position_step i ps none z n text h =
        checked i (state ps none 0 z n) text none h.0 ∙ rw (h.1, node_room i, text_room i) refl
    position_step i ps (some item) z n text h =
        checked i (state ps (some item) 0 z n) text none h.0
        ∙ rw (h.1, node_room i, text_room i) refl

    -- An option and its values, and what follows them.
    option_words :
        (values : List (List ℕ)) (i : ℕ) (ps : List Param) (current : Option Param) (z n : ℕ)
        (name : List ℕ) (type : ParamType) (rest : List (Option (List ℕ))) (r : LoopResult)
        → Whole (option name type values)
        → ((j : ℕ) (current' : Option Param) (z' : ℕ)
            → loop j rest (state (node_of n (option name type values) ∷ ps) current' 0 z' n) ≡ r)
        → loop i (some name ∷ (map some values ++ rest)) (state ps current 0 z n) ≡ r
    unfolding argument_loop
    option_words [] i ps current z n name type rest r whole next =
        rw (known_step i ps current z n name type whole.0, whole.1)
          (next (i + 1) (some (pending name type none)) z)
    option_words (v ∷ vs) i ps current z n name type rest r whole next =
        let more : (suc (length vs) == 0) ≡ false = not_zero (suc (length vs)) (omega arith) in
        rw (known_step i ps current z n name type whole.0, whole.1, more)
          (first_value vs v (i + 1) ps name type n rest r whole.2.0 whole.2.1 next)

    pub pieces_loop :
        (pieces : List Piece) (i : ℕ) (ps : List Param) (current : Option Param) (z n : ℕ)
        → All Whole pieces
        → loop i (line_words pieces) (state ps current 0 z n)
          ≡ (success, some (nodes n pieces ps), none)
    unfolding argument_loop line_words nodes
    pieces_loop [] i ps current z n h = refl
    pieces_loop (option name type values ∷ pieces) i ps current z n h =
        option_words values i ps current z n name type (line_words pieces)
          (success, some (nodes n pieces (node_of n (option name type values) ∷ ps)), none) h.0
          (λ j current' z'.
            pieces_loop pieces j (node_of n (option name type values) ∷ ps) current' z' n h.1)
    pieces_loop (positional text ∷ pieces) i ps current z n h =
        rw (position_step i ps current z n text h.0) (
          pieces_loop pieces (i + 1) (node_of n (positional text) ∷ ps)
            (some (node_of n (positional text))) z (n + 1) h.1)
