-- ===== src/UefiConsole/Commands/Sorted.antt =====
-- A new command of ConsoleCommand.c is moved to its place in the order of the names.
use uefi_toolkit_pkg.Base.{
  ℕ, zero, suc, ◌+◌, ◌*◌, ◌≤◌, ◌<◌, ◌≡◌, ◌≢◌, refl, ap, sym, subst, ◌∙◌, Bool, true, false, List,
  [], ◌∷◌, ◌++◌, append_assoc, All, length, length-append, some, ltb, arith, ◌⊎◌, inl, inr,
}
use uefi_toolkit_pkg.UefiConsole.Commands.{
  Sign, below, same, above, Command, name_at, on_sign, sort_loop,
}

-- What the loop relies on of StriColl: the sign of an order on classes of names.
pub record Collates (coll : List ℕ → List ℕ → Sign) : Type 0 where
  pub self : (a : List ℕ) → coll a a ≡ same
  pub flip : (a b : List ℕ) → coll a b ≡ above → coll b a ≡ below
  pub merge : (a b c : List ℕ) → coll a b ≡ same → coll a c ≡ same → coll b c ≡ same

pub Sign-cases : (s : Sign) → (s ≡ above) ⊎ ((s ≡ below) ⊎ (s ≡ same))
Sign-cases below = inr (inl refl)
Sign-cases same = inr (inr refl)
Sign-cases above = inl refl

module _ {S : Type 0} (coll : List ℕ → List ℕ → Sign) where
  -- The names stand in their order, none of them twice in a row.
  abbrev pub IsSorted : List (Command S) → Type 0
  IsSorted [] = Unit {0}
  IsSorted (c ∷ []) = Unit {0}
  IsSorted (c ∷ d ∷ cs) = (coll c.name d.name ≡ below) × IsSorted (d ∷ cs)

  -- Insertion in front of the first name that is not below.
  unfoldable pub insert_sorted : Command S → List (Command S) → List (Command S)
  insert_sorted p [] = p ∷ []
  insert_sorted p (c ∷ cs) =
      let rest = insert_sorted p cs in
      elim (coll p.name c.name) [ above ↦ c ∷ rest | same ↦ p ∷ c ∷ cs | below ↦ p ∷ c ∷ cs ]

  pub insert_above :
      (p c : Command S) (cs : List (Command S))
      → coll p.name c.name ≡ above
      → insert_sorted p (c ∷ cs) ≡ c ∷ insert_sorted p cs
  unfolding insert_sorted
  insert_above p c cs h = rw (h, insert_sorted) refl

  pub insert_end : (p : Command S) → insert_sorted p [] ≡ p ∷ []
  unfolding insert_sorted
  insert_end p = refl

  pub insert_below :
      (p c : Command S) (cs : List (Command S))
      → coll p.name c.name ≡ below
      → insert_sorted p (c ∷ cs) ≡ p ∷ c ∷ cs
  unfolding insert_sorted
  insert_below p c cs h = rw (h, insert_sorted) refl

  -- No name of the list is the same as this one.
  abbrev pub Unlike : List ℕ → List (Command S) → Type 0
  Unlike name = All (λ c. coll name c.name ≢ same)

  -- What the documentation of SwapListEntries says of neighbours: they change places, and the first
  -- of them is returned.
  pub record Swaps (swap : List (Command S) → ℕ → ℕ → List (Command S) × ℕ) : Type 0 where
    pub swaps :
        (xs ys : List (Command S)) (a b : Command S) (n : ℕ)
        → n ≡ length xs
        → swap (xs ++ a ∷ b ∷ ys) n (n + 1) ≡ (xs ++ b ∷ a ∷ ys, n)

  module _ (collates : Collates coll) (swap : List (Command S) → ℕ → ℕ → List (Command S) × ℕ)
      (swaps : Swaps swap) (has_text : List ℕ → List ℕ → Bool) where
    name_at-append :
        (xs ys : List (Command S)) (c : Command S) (n : ℕ)
        → n ≡ length xs
        → name_at coll swap has_text (xs ++ c ∷ ys) n ≡ c.name
    name_at-append [] ys c zero h = refl
    name_at-append [] ys c (suc n) h = absurd (omega (arith, h))
    name_at-append (x ∷ xs) ys c zero h = absurd (omega (arith, h))
    name_at-append (x ∷ xs) ys c (suc n) h = name_at-append xs ys c n (omega (arith, h))

    -- One round, on the sign that the comparison gives.
    sort_loop_round :
        (fuel n m : ℕ) (nodes : List (Command S)) (a b : List ℕ) (s : Sign)
        → m < length nodes
        → name_at coll swap has_text nodes n ≡ a
        → name_at coll swap has_text nodes m ≡ b
        → coll a b ≡ s
        → sort_loop coll swap has_text (suc fuel) nodes n m
          ≡ on_sign coll swap has_text (sort_loop coll swap has_text fuel) nodes n m s
    unfolding sort_loop
    sort_loop_round fuel n m nodes a b s inside first second sign =
        let there : ltb m (length nodes) ≡ true = ground (arith, inside) in
        rw (there, first, second, sign) refl

    sort_loop_end :
        (fuel n m : ℕ) (nodes : List (Command S))
        → length nodes ≤ m
        → sort_loop coll swap has_text (suc fuel) nodes n m ≡ some nodes
    unfolding sort_loop
    sort_loop_end fuel n m nodes h =
        let behind : ltb m (length nodes) ≡ false = ground (arith, h) in rw behind refl

    -- The name of the second of two nodes behind `xs`.
    name_at_second :
        (xs ys : List (Command S)) (a b : Command S) (n : ℕ)
        → n ≡ length xs
        → name_at coll swap has_text (xs ++ a ∷ b ∷ ys) (n + 1) ≡ b.name
    name_at_second xs ys a b n h =
        let longer : n + 1 ≡ length (xs ++ a ∷ []) = omega (arith, h, length-append xs (a ∷ [])) in
        ap (λ zs. name_at coll swap has_text zs (n + 1)) (sym (append_assoc xs (a ∷ []) (b ∷ ys)))
        ∙ name_at-append (xs ++ a ∷ []) ys b (n + 1) longer

    inside_second :
        (xs ys : List (Command S)) (a b : Command S) (n : ℕ)
        → n ≡ length xs
        → n + 1 < length (xs ++ a ∷ b ∷ ys)
    inside_second xs ys a b n h = omega (arith, h, length-append xs (a ∷ b ∷ ys))

    -- Two rounds pass a node whose name is below: the nodes change places, and the new node is
    -- compared with itself.
    sort_loop_pass :
        (cs xs : List (Command S)) (p c : Command S) (fuel n : ℕ)
        → n ≡ length xs
        → coll p.name c.name ≡ above
        → sort_loop coll swap has_text (suc (suc fuel)) (xs ++ p ∷ c ∷ cs) n (n + 1)
          ≡ sort_loop coll swap has_text fuel (xs ++ c ∷ p ∷ cs) (n + 1) (n + 1 + 1)
    sort_loop_pass cs xs p c fuel n at_p up =
        sort_loop_round (suc fuel) n (n + 1) (xs ++ p ∷ c ∷ cs) p.name c.name above
          (inside_second xs cs p c n at_p) (name_at-append xs (c ∷ cs) p n at_p)
          (name_at_second xs cs p c n at_p) up
        ∙ ap
            (λ (r : List (Command S) × ℕ).
              sort_loop coll swap has_text (suc fuel) r.0 (n + 1) (r.1 + 1))
            (swaps.swaps xs cs p c n at_p)
        ∙ sort_loop_round fuel (n + 1) (n + 1) (xs ++ c ∷ p ∷ cs) p.name p.name same
            (inside_second xs cs c p n at_p) (name_at_second xs cs c p n at_p)
            (name_at_second xs cs c p n at_p) (collates.self p.name)

    -- Behind the nodes `xs`, with the new node at its place and the next node to compare.
    sort_loop-insert :
        (rest xs : List (Command S)) (p : Command S) (fuel n : ℕ)
        → Unlike p.name rest
        → n ≡ length xs
        → 2 * length rest < fuel
        → sort_loop coll swap has_text fuel (xs ++ p ∷ rest) n (n + 1)
          ≡ some (xs ++ insert_sorted p rest)
    sort_loop-insert rest xs p zero n unlike at_p enough = absurd (omega (arith, enough))
    sort_loop-insert [] xs p (suc fuel) n unlike at_p enough =
        sort_loop_end fuel n (n + 1) (xs ++ p ∷ []) (omega (arith, at_p, length-append xs (p ∷ [])))
        ∙ ap (λ ys. some (xs ++ ys)) (sym (insert_end p))
    sort_loop-insert (c ∷ cs) xs p (suc zero) n unlike at_p enough = absurd (omega (arith, enough))
    sort_loop-insert (c ∷ cs) xs p (suc (suc fuel)) n unlike at_p enough =
        elim (Sign-cases (coll p.name c.name)) [
          | inl up ↦
              let longer : n + 1 ≡ length (xs ++ c ∷ []) =
                omega (arith, at_p, length-append xs (c ∷ [])) in
              let next =
                sort_loop-insert cs (xs ++ c ∷ []) p fuel (n + 1) unlike.1 longer
                  (omega (arith, enough)) in
              sort_loop_pass cs xs p c fuel n at_p up
              ∙ ap (λ ys. sort_loop coll swap has_text fuel ys (n + 1) (n + 1 + 1))
                  (sym (append_assoc xs (c ∷ []) (p ∷ cs)))
              ∙ next
              ∙ ap some (append_assoc xs (c ∷ []) (insert_sorted p cs))
              ∙ ap (λ ys. some (xs ++ ys)) (sym (insert_above p c cs up))
          | inr (inl down) ↦
              sort_loop_round (suc fuel) n (n + 1) (xs ++ p ∷ c ∷ cs) p.name c.name below
                (inside_second xs cs p c n at_p) (name_at-append xs (c ∷ cs) p n at_p)
                (name_at_second xs cs p c n at_p) down
              ∙ ap (λ ys. some (xs ++ ys)) (sym (insert_below p c cs down))
          | inr (inr equal) ↦ absurd (unlike.0 equal)
        ]

    -- The whole loop: the first round compares the new node with itself.
    pub sort_loop_inserts :
        (p : Command S) (cs : List (Command S))
        → Unlike p.name cs
        → sort_loop coll swap has_text (2 * length cs + 3) (p ∷ cs) 0 0 ≡ some (insert_sorted p cs)
    sort_loop_inserts p cs unlike =
        let fuel : 2 * length cs + 3 ≡ suc (2 * length cs + 2) = omega arith in
        ap (λ k. sort_loop coll swap has_text k (p ∷ cs) 0 0) fuel
        ∙ sort_loop_round (2 * length cs + 2) 0 0 (p ∷ cs) p.name p.name same (omega arith) refl
            refl (collates.self p.name)
        ∙ sort_loop-insert cs [] p (2 * length cs + 2) 0 unlike refl (omega arith)

  cons_insert :
      (c p : Command S) (cs : List (Command S))
      → coll c.name p.name ≡ below
      → Unlike p.name cs
      → IsSorted (c ∷ cs)
      → IsSorted (insert_sorted p cs)
      → IsSorted (c ∷ insert_sorted p cs)
  cons_insert c p [] low unlike sorted after =
      subst (λ ys. IsSorted (c ∷ ys)) (sym (insert_end p)) (low, tt)
  cons_insert c p (d ∷ ds) low unlike sorted after = elim (Sign-cases (coll p.name d.name)) [
    | inl up ↦
        let e = insert_above p d ds up in
        subst (λ ys. IsSorted (c ∷ ys)) (sym e) (sorted.0, subst IsSorted e after)
    | inr (inl down) ↦
        let e = insert_below p d ds down in
        subst (λ ys. IsSorted (c ∷ ys)) (sym e) (low, subst IsSorted e after)
    | inr (inr equal) ↦ absurd (unlike.0 equal)
  ]

  tail-IsSorted : (c : Command S) (cs : List (Command S)) → IsSorted (c ∷ cs) → IsSorted cs
  tail-IsSorted c [] h = tt
  tail-IsSorted c (d ∷ ds) h = h.1

  pub insert_sorted-IsSorted :
      (collates : Collates coll) (p : Command S) (cs : List (Command S))
      → Unlike p.name cs
      → IsSorted cs
      → IsSorted (insert_sorted p cs)
  insert_sorted-IsSorted collates p [] unlike sorted = subst IsSorted (sym (insert_end p)) tt
  insert_sorted-IsSorted collates p (c ∷ cs) unlike sorted =
      elim (Sign-cases (coll p.name c.name)) [
        | inl up ↦
            let after = insert_sorted-IsSorted collates p cs unlike.1 (tail-IsSorted c cs sorted) in
            subst IsSorted (sym (insert_above p c cs up))
              (cons_insert c p cs (collates.flip p.name c.name up) unlike.1 sorted after)
        | inr (inl down) ↦ subst IsSorted (sym (insert_below p c cs down)) (down, sorted)
        | inr (inr equal) ↦ absurd (unlike.0 equal)
      ]
