-- ===== src/UefiConsole/Commands/Found.antt =====
-- The commands of ConsoleCommand.c that a name finds, before and after an insertion.
use uefi_toolkit_pkg.Base.{
  ℕ, suc, ◌≡◌, ◌≢◌, refl, ap, sym, ◌∙◌, Bool, false, List, [], ◌∷◌, length, Option, some, none, inl,
  inr,
}
use uefi_toolkit_pkg.UefiConsole.Commands.{
  Sign, same, Command, find_command, is_command_on_list, is_some,
}
use uefi_toolkit_pkg.UefiConsole.Commands.Sorted.{
  Collates, insert_sorted, Sign-cases, Unlike, insert_above, insert_below, insert_end,
}

none_of {ℓ} : {A : Type ℓ} (o : Option A) → is_some o ≡ false → o ≡ none
none_of none h = refl
none_of (some a) h = cc

module _ {S : Type 0} (coll : List ℕ → List ℕ → Sign)
    (swap : List (Command S) → ℕ → ℕ → List (Command S) × ℕ)
    (has_text : List ℕ → List ℕ → Bool) where
  abbrev pub find : List (Command S) → List ℕ → Option (Command S)
  find = find_command coll swap has_text

  pub find_same :
      (c : Command S) (cs : List (Command S)) (name : List ℕ)
      → coll name c.name ≡ same
      → find (c ∷ cs) name ≡ some c
  unfolding find_command
  find_same c cs name h = rw (h, find_command) refl

  pub find_other :
      (c : Command S) (cs : List (Command S)) (name : List ℕ)
      → coll name c.name ≢ same
      → find (c ∷ cs) name ≡ find cs name
  unfolding find_command
  find_other c cs name h = elim (Sign-cases (coll name c.name)) [
    | inl up ↦ rw (up, find_command) refl
    | inr (inl down) ↦ rw (down, find_command) refl
    | inr (inr equal) ↦ absurd (h equal)
  ]

  pub Unlike_of_none :
      (cs : List (Command S)) (name : List ℕ) → find cs name ≡ none → Unlike coll name cs
  Unlike_of_none [] name h = tt
  Unlike_of_none (c ∷ cs) name h =
      let other : coll name c.name ≢ same = λ e. cc (find_same c cs name e) in
      (other, Unlike_of_none cs name (sym (find_other c cs name other) ∙ h))

  pub not_on_list :
      (cs : List (Command S)) (name : List ℕ)
      → is_command_on_list coll swap has_text cs name ≡ false
      → find cs name ≡ none
  unfolding is_command_on_list
  not_on_list cs name h = none_of (find cs name) h

  pub none_same :
      (collates : Collates coll) (p : List ℕ) (cs : List (Command S)) (name : List ℕ)
      → Unlike coll p cs
      → coll name p ≡ same
      → Unlike coll name cs
  none_same collates p [] name unlike h = tt
  none_same collates p (c ∷ cs) name unlike h =
      (λ e. unlike.0 (collates.merge name p c.name h e), none_same collates p cs name unlike.1 h)

  pub find-insert_same :
      (p : Command S) (cs : List (Command S)) (name : List ℕ)
      → Unlike coll name cs
      → Unlike coll p.name cs
      → coll name p.name ≡ same
      → find (insert_sorted coll p cs) name ≡ some p
  find-insert_same p [] name others unlike h =
      ap (λ ys. find ys name) (insert_end coll p) ∙ find_same p [] name h
  find-insert_same p (c ∷ cs) name others unlike h = elim (Sign-cases (coll p.name c.name)) [
    | inl up ↦
        ap (λ ys. find ys name) (insert_above coll p c cs up)
        ∙ find_other c (insert_sorted coll p cs) name others.0
        ∙ find-insert_same p cs name others.1 unlike.1 h
    | inr (inl down) ↦
        ap (λ ys. find ys name) (insert_below coll p c cs down) ∙ find_same p (c ∷ cs) name h
    | inr (inr equal) ↦ absurd (unlike.0 equal)
  ]

  pub find-insert_other :
      (p : Command S) (cs : List (Command S)) (name : List ℕ)
      → Unlike coll p.name cs
      → coll name p.name ≢ same
      → find (insert_sorted coll p cs) name ≡ find cs name
  find-insert_other p [] name unlike h =
      ap (λ ys. find ys name) (insert_end coll p) ∙ find_other p [] name h
  find-insert_other p (c ∷ cs) name unlike h = elim (Sign-cases (coll p.name c.name)) [
    | inl up ↦
        let next = find-insert_other p cs name unlike.1 h in
        ap (λ ys. find ys name) (insert_above coll p c cs up) ∙ same_head c cs name next
    | inr (inl down) ↦
        ap (λ ys. find ys name) (insert_below coll p c cs down) ∙ find_other p (c ∷ cs) name h
    | inr (inr equal) ↦ absurd (unlike.0 equal)
  ]
    where
      same_head :
          (c : Command S) (cs : List (Command S)) (name : List ℕ)
          → find (insert_sorted coll p cs) name ≡ find cs name
          → find (c ∷ insert_sorted coll p cs) name ≡ find (c ∷ cs) name
      same_head c cs name e = elim (Sign-cases (coll name c.name)) [
        | inl up ↦
            let other : coll name c.name ≢ same = λ q. cc in
            find_other c (insert_sorted coll p cs) name other ∙ e ∙ sym (find_other c cs name other)
        | inr (inl down) ↦
            let other : coll name c.name ≢ same = λ q. cc in
            find_other c (insert_sorted coll p cs) name other ∙ e ∙ sym (find_other c cs name other)
        | inr (inr equal) ↦
            find_same c (insert_sorted coll p cs) name equal ∙ sym (find_same c cs name equal)
      ]

  pub length-insert_sorted :
      (p : Command S) (cs : List (Command S))
      → Unlike coll p.name cs
      → length (insert_sorted coll p cs) ≡ suc (length cs)
  length-insert_sorted p [] unlike = ap length (insert_end coll p)
  length-insert_sorted p (c ∷ cs) unlike = elim (Sign-cases (coll p.name c.name)) [
    | inl up ↦ ap length (insert_above coll p c cs up) ∙ ap suc (length-insert_sorted p cs unlike.1)
    | inr (inl down) ↦ ap length (insert_below coll p c cs down)
    | inr (inr equal) ↦ absurd (unlike.0 equal)
  ]
