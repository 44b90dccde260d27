-- ===== src/UefiConsole/Commands/Lifetime.antt =====
-- The list of commands of ConsoleCommand.c from its constructor to its destructor.
use uefi_toolkit_pkg.Base.{
  ℕ, ◌-◌, ◌*◌, ◌≡◌, refl, subst, Bool, true, false, not, ◌||◌, List, [], ◌∷◌, length, Option, some,
  none, arith, inl, inr, Bool-cases, Option-cases, Status, efi_error, codes,
}
use uefi_toolkit_pkg.UefiConsole.Commands.{
  Sign, Command, Registry, is_command_on_list, add_profile, insert_node, register_command_name,
  free_commands, commands_destructor, register_all, commands_constructor,
}
use uefi_toolkit_pkg.UefiConsole.Commands.Sorted.{Collates, Swaps}
use uefi_toolkit_pkg.UefiConsole.Commands.Registered.{
  IsValid, with_command, registered, with_command-IsValid,
}

module _ {S : Type 0} (coll : List ℕ → List ℕ → Sign)
    (swap : List (Command S) → ℕ → ℕ → List (Command S) × ℕ) (has_text : List ℕ → List ℕ → Bool)
    (collates : Collates coll) (swaps : Swaps coll swap) where
  abbrev add :
      Bool → Bool → (ℕ → Bool) → Registry S → Command S → List ℕ → Option (Status × Registry S)
  add = register_command_name coll swap has_text

  -- What registration does on each of its early ends.
  add_known :
      (a b : Bool) (room : ℕ → Bool) (r r' : Registry S) (c : Command S) (profile : List ℕ)
      (st : Status)
      → is_command_on_list coll swap has_text r.commands c.name ≡ true
      → add a b room r c profile ≡ some (st, r')
      → r ≡ r'
  unfolding register_command_name
  add_known a b room r r' c profile st known h = ground (arith, known)

  add_full :
      (a b : Bool) (room : ℕ → Bool) (r r' : Registry S) (c : Command S) (profile : List ℕ)
      (st : Status)
      → is_command_on_list coll swap has_text r.commands c.name ≡ false
      → (not a || not b) ≡ true
      → add a b room r c profile ≡ some (st, r')
      → r ≡ r'
  unfolding register_command_name
  add_full a b room r r' c profile st new full h = ground (arith, new, full)

  add_asserted :
      (room : ℕ → Bool) (r : Registry S) (c : Command S) (profile : List ℕ)
      → is_command_on_list coll swap has_text r.commands c.name ≡ false
      → add_profile coll swap has_text room r.profiles profile ≡ none
      → add true true room r c profile ≡ none
  unfolding register_command_name insert_node
  add_asserted room r c profile new failed = rw (new, failed) refl

  add_room-IsValid :
      (a b : Bool) (room : ℕ → Bool) (r r' : Registry S) (c : Command S) (profile : List ℕ)
      (st : Status)
      → is_command_on_list coll swap has_text r.commands c.name ≡ false
      → IsValid coll r
      → add a b room r c profile ≡ some (st, r')
      → IsValid coll r'
  add_room-IsValid false b room r r' c profile st new valid h =
      subst (IsValid coll) (add_full false b room r r' c profile st new refl h) valid
  add_room-IsValid true false room r r' c profile st new valid h =
      subst (IsValid coll) (add_full true false room r r' c profile st new refl h) valid
  add_room-IsValid true true room r r' c profile st new valid h =
      elim (Option-cases (add_profile coll swap has_text room r.profiles profile)) [
        | inl failed ↦ absurd (cc (add_asserted room r c profile new failed))
        | inr (q, named) ↦
            let placed =
              registered coll swap has_text collates swaps room r c profile q new named in
            let result : with_command coll r c q ≡ r' = cc (placed, h) in
            subst (IsValid coll) result
              (with_command-IsValid coll swap has_text collates swaps r c q valid new)
      ]

  add-IsValid :
      (a b : Bool) (room : ℕ → Bool) (r r' : Registry S) (c : Command S) (profile : List ℕ)
      (st : Status)
      → IsValid coll r
      → add a b room r c profile ≡ some (st, r')
      → IsValid coll r'
  add-IsValid a b room r r' c profile st valid h =
      elim (Bool-cases (is_command_on_list coll swap has_text r.commands c.name)) [
        | inl known ↦ subst (IsValid coll) (add_known a b room r r' c profile st known h) valid
        | inr new ↦ add_room-IsValid a b room r r' c profile st new valid h
      ]

  register_all-IsValid :
      (rooms : Command S → Bool × Bool) (room : ℕ → Bool) (cs : List (Command S))
      (r r' : Registry S)
      → IsValid coll r
      → register_all coll swap has_text rooms room cs r ≡ some r'
      → IsValid coll r'
  unfolding register_all
  register_all-IsValid rooms room [] r r' valid h =
      let e : r ≡ r' = cc in subst (IsValid coll) e valid
  register_all-IsValid rooms room (c ∷ cs) r r' valid h =
      elim (Option-cases (add (rooms c).0 (rooms c).1 room r c (codes "Debug"))) [
        | inl failed ↦ absurd (ground (arith, failed))
        | inr (done, e) ↦
            let next : register_all coll swap has_text rooms room cs done.1 ≡ some r' =
              ground (arith, e) in
            register_all-IsValid rooms room cs done.1 r'
              (add-IsValid (rooms c).0 (rooms c).1 room r done.1 c (codes "Debug") done.0 valid e)
              next
      ]

  free_commands-empty :
      (cs : List (Command S)) (r : Registry S)
      → r.blocks ≡ 2 * length cs
      → ((free_commands coll swap has_text cs r).commands ≡ [])
        × ((free_commands coll swap has_text cs r).blocks ≡ 0)
  unfolding free_commands
  free_commands-empty [] r h = (refl, omega (arith, h))
  free_commands-empty (c ∷ cs) r h =
      free_commands-empty cs (record r { commands = cs; blocks = r.blocks - 2 }) (omega (arith, h))

  constructed-IsValid :
      (init : Status) (rooms : Command S → Bool × Bool) (room : ℕ → Bool) (cs : List (Command S))
      (r r' : Registry S) (st : Status)
      → r.blocks ≡ 0
      → commands_constructor coll swap has_text init rooms room cs r ≡ some (st, r')
      → IsValid coll r'
  unfolding commands_constructor
  constructed-IsValid init rooms room cs r r' st none_held h =
      let empty : Registry S = record r {
        commands = [];
        profiles = record { text = none; size = 0 };
      } in
      let start : IsValid coll empty = record {
        sorted = tt;
        balanced = omega (arith, none_held);
      } in
      elim (Bool-cases (efi_error init)) [
        | inl failed ↦ let e : empty ≡ r' = ground (arith, failed) in subst (IsValid coll) e start
        | inr fine ↦ elim (Option-cases (register_all coll swap has_text rooms room cs empty)) [
          | inl asserted ↦ absurd (ground (arith, fine, asserted))
          | inr (filled, e) ↦
              let same_list : filled ≡ r' = ground (arith, fine, e) in
              subst (IsValid coll) same_list
                (register_all-IsValid rooms room cs empty filled start e)
        ]
      ]

  -- Whatever room the pool has, and whatever CommandInit returns, the constructor leaves a list that is
  -- sorted, without a name twice in a row, and the destructor then empties it and frees every block
  -- of its nodes, if no ASSERT failed, no block was held before, StriColl is an order, and
  -- SwapListEntries swaps neighbours.
  pub commands_destructor-constructor :
      (init : Status) (rooms : Command S → Bool × Bool) (room : ℕ → Bool) (cs : List (Command S))
      (r r' : Registry S) (st : Status)
      → r.blocks ≡ 0
      → commands_constructor coll swap has_text init rooms room cs r ≡ some (st, r')
      → IsValid coll r'
        × ((commands_destructor coll swap has_text r').commands ≡ [])
        × ((commands_destructor coll swap has_text r').blocks ≡ 0)
  unfolding commands_destructor
  commands_destructor-constructor init rooms room cs r r' st none_held h =
      let valid = constructed-IsValid init rooms room cs r r' st none_held h in
      let empty = free_commands-empty r'.commands r' valid.balanced in (valid, empty.0, empty.1)
