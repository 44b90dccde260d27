-- ===== src/UefiConsole/Package.antt =====
-- ConsoleInternalCommandLineParse of Drivers/Dxe/UefiConsole/ConsoleParameters.c and what reads the
-- package that it makes. StringNoCaseCompare, StrCmp, StrnCmp and the pool are parameters. A node is
-- pending in CurrentItemPackage while it waits for values, and on the list afterwards.

pub mod Given
pub mod Pieces
pub mod Read
use uefi_toolkit_pkg.Base.{
  ℕ, suc, ◌+◌, ◌-◌, ◌*◌, ◌^◌, Bool, true, false, ◌&&◌, ◌||◌, not, List, [], ◌∷◌, ◌++◌, Option, none,
  some, codes, length, map, take, drop, ◌==◌, if◌then◌else◌, Status, success, error,
  out_of_resources, volume_corrupted,
}
use uefi_toolkit_pkg.UefiConsole.Numbers.{internal_is_hex_or_decimal_number}
use uefi_toolkit_pkg.UefiConsole.Run.{ShellParameters}

-- SHELL_PARAM_TYPE.
pub data ParamType : Type 0 where
  type_flag type_value type_position type_start type_double_value : ParamType
  type_max_value type_time_value : ParamType

pub record ParamItem : Type 0 where
  pub name : List ℕ
  pub type : ParamType

-- SHELL_PARAM_PACKAGE.
pub record Param : Type 0 where
  pub name : Option (List ℕ)
  pub type : ParamType
  pub value : Option (List ℕ)
  pub original_position : ℕ

abbrev pub is_start : ParamType → Bool
is_start type_start = true
is_start _ = false

abbrev pub is_time : ParamType → Bool
is_time type_time_value = true
is_time _ = false

-- GetItemValue behind an item of a type, on UINTN.
unfoldable pub values_wanted : ParamType → ℕ
values_wanted type_value = 1
values_wanted type_time_value = 1
values_wanted type_double_value = 2
values_wanted type_max_value = 2 ^ 64 - 1
values_wanted _ = 0

abbrev pub first_is : ℕ → List ℕ → Bool
first_is c [] = false
first_is c (d ∷ s) = d == c

unfoldable pub is_flag : List ℕ → Bool → Bool → Bool
is_flag name always_allow_numbers time_numbers =
    if (first_is 45 name || first_is 43 name)
      && internal_is_hex_or_decimal_number false false time_numbers (some (drop 1 name))
      && always_allow_numbers
    then false
    else first_is 47 name || first_is 45 name || first_is 43 name

-- The name's beginning that ConsoleStrnCatGrow copies: all of it for a count of 0.
abbrev pub cat_text : List ℕ → ℕ → List ℕ
cat_text name count = if count == 0 then name else take count name

-- The texts' comparisons: StrCmp, StringNoCaseCompare, and StrnCmp with the length of the second.
pub record Compare : Type 0 where
  pub equal : List ℕ → List ℕ → Bool
  pub equal_no_case : List ℕ → List ℕ → Bool
  pub begins : List ℕ → List ℕ → Bool

-- The pool's answers: for the list's head, and for an argument's number for its node, its text, and
-- the copy that is compared.
pub record PackagePool : Type 0 where
  pub head_room : Bool
  pub node_room : ℕ → Bool
  pub text_room : ℕ → Bool
  pub temp_room : List ℕ → Bool

-- *CheckPackage, the pending node, GetItemValue, ValueSize and Count.
pub record Parsing : Type 0 where
  pub params : List Param
  pub current : Option Param
  pub get_item_value : ℕ
  pub value_size : ℕ
  pub count : ℕ

pub data Parsed : Type 0 where
  goes_on : Parsing → Parsed
  gives_up : Status → Option (List ℕ) → Parsed

-- InsertHeadList of the pending node.
abbrev pub with_current : Parsing → List Param
with_current p = elim p.current [ none ↦ p.params | some item ↦ item ∷ p.params ]

abbrev pub joined_value : ℕ → Option (List ℕ) → List ℕ → List ℕ
joined_value value_size none text = text
joined_value value_size (some value) text = if value_size == 0 then text else value ++ (32 ∷ text)

-- The text without an escape character before the sign of a flag.
unfoldable pub unescaped : List ℕ → List ℕ
unescaped text =
    let rest : List ℕ = drop 1 text in
    if first_is 94 text && (first_is 45 rest || first_is 47 rest || first_is 43 rest)
    then rest
    else text

module _ (compare : Compare) (pool : PackagePool) where
  unfoldable pub on_items : List ParamItem → List ℕ → Option ParamType
  on_items [] name = none
  on_items (item ∷ items) name =
      let rest = on_items items name in
      if is_start item.type
      then if compare.begins name item.name
          || (pool.temp_room name
              && compare.equal_no_case (cat_text name (length item.name)) item.name)
        then some item.type
        else rest
      else if compare.equal_no_case name item.name
      then some item.type
      else rest

  unfoldable pub is_on_check_list : List ParamItem → List ℕ → Option ParamType
  is_on_check_list check_list name =
      if compare.equal name (codes "-?") || compare.equal name (codes "-b")
      then some type_flag
      else on_items check_list name

  -- An argument on the check list, with a node left over from the last one put on the list first.
  unfoldable pub on_known : ℕ → Parsing → List ℕ → ParamType → Parsed
  on_known i p name type =
      let params : List Param = if p.get_item_value == 0 then p.params else with_current p in
      let item : Param = record {
        name = some name;
        type = type;
        value = none;
        original_position = 2 ^ 64 - 1;
      } in
      let waits : Parsing = record p {
        params = params;
        current = some item;
        get_item_value = values_wanted type;
        value_size = 0;
      } in
      let done : Parsing = record p {
        params = item ∷ params;
        current = some item;
        get_item_value = 0;
      } in
      if pool.node_room i && pool.text_room i
      then goes_on (if values_wanted type == 0 then done else waits)
      else gives_up (error out_of_resources) none

  -- A value of the pending node.
  unfoldable pub on_value : ℕ → Parsing → Param → List ℕ → Parsed
  on_value i p item text =
      let filled : Param = record item {
        value = some (joined_value p.value_size item.value text);
      } in
      let left : ℕ = p.get_item_value - 1 in
      let size : ℕ = p.value_size + 2 * (length text + 1) + 2 in
      if pool.text_room i
      then goes_on (record p {
        params = if left == 0 then filled ∷ p.params else p.params;
        current = some filled;
        get_item_value = left;
        value_size = size;
      })
      else gives_up (error out_of_resources) none

  unfoldable pub on_position : ℕ → Parsing → List ℕ → Parsed
  on_position i p text =
      let item : Param = record {
        name = none;
        type = type_position;
        value = some (unescaped text);
        original_position = p.count;
      } in
      if pool.node_room i && pool.text_room i
      then goes_on (record p { params = item ∷ p.params; current = some item; count = p.count + 1 })
      else gives_up (error out_of_resources) none

  module _ (check_list : List ParamItem) (always_allow_numbers : Bool) where
    unfoldable pub on_other : ℕ → Parsing → List ℕ → Parsed
    on_other i p text =
        if is_flag text always_allow_numbers false
        then gives_up (error volume_corrupted) (if pool.text_room i then some text else none)
        else on_position i p text

    unfoldable pub on_unknown : ℕ → Parsing → Option Param → List ℕ → Parsed
    on_unknown i p none text = on_other i p text
    on_unknown i p (some item) text =
        if not (p.get_item_value == 0)
          && not (is_flag text always_allow_numbers (is_time item.type))
        then on_value i p item text
        else on_other i p text

    unfoldable pub on_checked : ℕ → Parsing → List ℕ → Option ParamType → Parsed
    on_checked i p text none = on_unknown i p p.current text
    on_checked i p text (some type) = on_known i p text type

    -- One round of the loop.
    unfoldable pub on_argument : ℕ → Parsing → Option (List ℕ) → Parsed
    on_argument i p none = goes_on p
    on_argument i p (some text) = on_checked i p text (is_on_check_list check_list text)

    -- *CheckPackage and *ProblemParam with the status.
    abbrev pub CheckPackage : Type 0
    CheckPackage = Status × Option (List Param) × Option (List ℕ)

    abbrev pub next_argument : (Parsing → CheckPackage) → Parsed → CheckPackage
    next_argument next (goes_on p) = next p
    next_argument next (gives_up status problem) = (status, none, problem)

    unfoldable pub argument_loop : ℕ → List (Option (List ℕ)) → Parsing → CheckPackage
    argument_loop i [] p =
        (success, some (if p.get_item_value == 0 then p.params else with_current p), none)
    argument_loop i (argument ∷ arguments) p =
        next_argument (argument_loop (i + 1) arguments) (on_argument i p argument)

    unfoldable pub command_line_parse : List (Option (List ℕ)) → CheckPackage
    command_line_parse arguments =
        let parsed : CheckPackage =
          argument_loop 0 arguments (record {
            params = [];
            current = none;
            get_item_value = 0;
            value_size = 0;
            count = 0;
          }) in
        if length arguments == 0
        then (success, none, none)
        else if pool.head_room
        then parsed
        else (error out_of_resources, none, none)

  -- The first node of the flag's name, and what ConsoleCommandLineGetValue returns for it.
  abbrev pub on_named : List ℕ → Param → List ℕ → Option (Option (List ℕ))
  on_named key item name =
      if is_start item.type
      then if compare.begins name key || (pool.temp_room key && compare.equal_no_case key name)
        then some (some (drop (length key) name))
        else none
      else if compare.equal_no_case key name
      then some item.value
      else none

  unfoldable pub find_named : List ℕ → List Param → Option (Option (List ℕ))
  find_named key [] = none
  find_named key (item ∷ items) =
      let rest = find_named key items in
      let here : Option (Option (List ℕ)) = elim item.name [
        | none ↦ none
        | some name ↦ on_named key item name
      ] in
      elim here [ none ↦ rest | some value ↦ some value ]

  unfoldable pub get_flag : Option (List Param) → Option (List ℕ) → Bool
  get_flag none key = false
  get_flag (some items) none = false
  get_flag (some items) (some key) = elim (find_named key items) [
    | none ↦ false
    | some value ↦ true
  ]

  unfoldable pub get_value : Option (List Param) → Option (List ℕ) → Option (List ℕ)
  get_value none key = none
  get_value (some items) none = none
  get_value (some items) (some key) = elim (find_named key items) [
    | none ↦ none
    | some value ↦ value
  ]

unfoldable pub find_position : ℕ → List Param → Option (List ℕ)
find_position position [] = none
find_position position (item ∷ items) =
    let rest = find_position position items in
    if item.original_position == position then item.value else rest

unfoldable pub get_raw_value : Option (List Param) → ℕ → Option (List ℕ)
get_raw_value none position = none
get_raw_value (some items) position = find_position position items

unfoldable pub get_count : Option (List Param) → ℕ
get_count none = 0
get_count (some []) = 0
get_count (some (item ∷ items)) =
    let rest = get_count (some items) in elim item.name [ none ↦ 1 + rest | some name ↦ rest ]

-- ConsoleCommandLineParse takes the first Argc entries of Argv.
abbrev pub arguments_of : ShellParameters → List (Option (List ℕ))
arguments_of p = elim p.argv [ none ↦ [] | some texts ↦ map some (take p.argc texts) ]
