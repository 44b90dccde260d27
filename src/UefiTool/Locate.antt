-- ===== src/UefiTool/Locate.antt =====
-- GetProcessorsCpuLocation of Application/UefiTool/UefiTool.c. The MP services and the pool are
-- parameters.
use uefi_toolkit_pkg.Base.{
  ℕ, zero, suc, ◌+◌, ◌*◌, ◌%◌, ◌^◌, ◌<◌, ◌≡◌, refl, ap, ◌∙◌, true, false, List, [], ◌∷◌, ◌++◌,
  length, length-append, ltb, sym, subst, ◌≢◌, some, if◌then◌else◌, ◌⊎◌, inl, inr, Bool-cases,
  Status, error, unsupported, efi_error, arith,
}
use uefi_toolkit_pkg.UefiTool.Machine.{Location}
use uefi_toolkit_pkg.UefiTool.Routine.{Processors, location_at}

-- What the calls return: the status of LocateProtocol, mProcessorNum after GetNumberOfProcessors,
-- the status of AllocatePool for a size, an entry of GetProcessorInfo, mBspIndex after WhoAmI.
pub record Services : Type 0 where
  pub locate_protocol : Status
  pub get_number_of_processors : Status × ℕ
  pub info_size : ℕ
  pub allocate_pool : ℕ → Status
  pub get_processor_info : ℕ → Status × Location
  pub who_am_i : Status × ℕ

-- mProcessorLocBuf: never allocated, allocated, or freed.
pub data Buffer : Type 0 where
  unset held freed : Buffer

pub record Located : Type 0 where
  pub status : Status
  pub processors : Processors
  pub buffer : Buffer

abbrev no_processors : ℕ → Processors
no_processors number = record { locations = []; number = number; bsp = 0 }

module _ (sv : Services) where
  -- One round of the loop: the entry, or the error.
  abbrev on_info :
      (List Location → Status ⊎ List Location)
      → List Location
      → Status × Location
      → Status ⊎ List Location
  on_info next filled info =
      let rest = next (filled ++ info.1 ∷ []) in if efi_error info.0 then inl info.0 else rest

  -- The loop: the rounds left, Index and the entries that are filled.
  unfoldable pub info_loop : ℕ → ℕ → List Location → Status ⊎ List Location
  info_loop zero index filled = inr filled
  info_loop (suc rounds) index filled =
      on_info (info_loop rounds (index + 1)) filled (sv.get_processor_info index)

  unfoldable pub on_infos : ℕ → Status ⊎ List Location → Located
  on_infos number (inl status) = record {
    status = status;
    processors = no_processors number;
    buffer = freed;
  }
  on_infos number (inr locations) = record {
    status = sv.who_am_i.0;
    processors = record { locations = locations; number = number; bsp = sv.who_am_i.1 };
    buffer = held;
  }

  unfoldable pub get_processors_cpu_location : Located
  get_processors_cpu_location =
      let number = sv.get_number_of_processors.1 in
      let none_yet : Status → Located =
        λ status. record { status = status; processors = no_processors number; buffer = unset } in
      let pool = sv.allocate_pool (sv.info_size * number % 2 ^ 64) in
      let infos = on_infos number (info_loop number 0 []) in
      if efi_error sv.locate_protocol
      then record { status = error unsupported; processors = no_processors 0; buffer = unset }
      else if efi_error sv.get_number_of_processors.0
      then none_yet sv.get_number_of_processors.0
      else if efi_error pool
      then none_yet pool
      else infos

  -- The entries are those of the processors from 0 on, none of them with an error.
  pub record Filled (locations : List Location) (number : ℕ) : Type 0 where
    pub complete : number ≡ length locations
    pub entry :
        (i : ℕ)
        → i < number
        → (efi_error (sv.get_processor_info i).0 ≡ false)
          × (location_at locations i ≡ some (sv.get_processor_info i).1)

  location_at-append_low :
      (xs ys : List Location) (i : ℕ) → i < length xs → location_at (xs ++ ys) i ≡ location_at xs i
  location_at-append_low [] ys i h = absurd (omega arith)
  location_at-append_low (x ∷ xs) ys zero h = refl
  location_at-append_low (x ∷ xs) ys (suc i) h = location_at-append_low xs ys i (omega arith)

  location_at_last :
      (xs : List Location) (l : Location) → location_at (xs ++ l ∷ []) (length xs) ≡ some l
  location_at_last [] l = refl
  location_at_last (x ∷ xs) l = location_at_last xs l

  Filled-append :
      (xs : List Location) (index : ℕ)
      → Filled xs index
      → efi_error (sv.get_processor_info index).0 ≡ false
      → Filled (xs ++ (sv.get_processor_info index).1 ∷ []) (index + 1)
  Filled-append xs index f fine =
      let l = (sv.get_processor_info index).1 in
      record {
        complete = omega (arith, f.complete, length-append xs (l ∷ []));
        entry = λ i h. elim (Bool-cases (ltb i index)) [
          | inl low ↦
              let before : i < index = ground (arith, low) in
              let inside : i < length xs = omega (arith, before, f.complete) in
              (
                (f.entry i before).0,
                location_at-append_low xs (l ∷ []) i inside ∙ (f.entry i before).1,
              )
          | inr high ↦
              let last : i ≡ index = ground (arith, high, h) in
              let place : i ≡ length xs = omega (arith, last, f.complete) in
              (
                ap (λ j. efi_error (sv.get_processor_info j).0) last ∙ fine,
                ap (location_at (xs ++ l ∷ [])) place
                    ∙ location_at_last xs l
                    ∙ ap (λ j. some (sv.get_processor_info j).1) (sym last),
              )
        ];
      }

  info_loop-Filled :
      (rounds index : ℕ) (xs locations : List Location)
      → Filled xs index
      → info_loop rounds index xs ≡ inr locations
      → Filled locations (index + rounds)
  unfolding info_loop
  info_loop-Filled zero index xs locations f h =
      let same : xs ≡ locations = cc in
      let n : index ≡ index + 0 = omega arith in
      subst (λ k. Filled locations k) n (subst (λ ls. Filled ls index) same f)
  info_loop-Filled (suc rounds) index xs locations f h =
      let n : index + 1 + rounds ≡ index + suc rounds = omega arith in
      elim (Bool-cases (efi_error (sv.get_processor_info index).0)) [
        | inl failed ↦ let h' = h in absurd (ground (arith, failed))
        | inr fine ↦
            let next : info_loop rounds (index + 1) (xs ++ (sv.get_processor_info index).1 ∷ [])
                ≡ inr locations =
              ground (arith, fine) in
            subst (λ k. Filled locations k) n
              (info_loop-Filled rounds (index + 1) (xs ++ (sv.get_processor_info index).1 ∷ [])
                locations (Filled-append xs index f fine) next)
      ]

  start-Filled : Filled [] 0
  start-Filled = record { complete = refl; entry = λ i h. absurd (omega arith) }

  -- How the search for the processors ends: with all of them and the status of WhoAmI, or with an
  -- error and no buffer.
  abbrev pub Ends : Located → Type 0
  Ends r =
      (Filled r.processors.locations r.processors.number
        × (r.buffer ≡ held)
        × (r.status ≡ sv.who_am_i.0))
      ⊎ ((efi_error r.status ≡ true) × (r.buffer ≢ held))

  info_loop-error :
      (rounds index : ℕ) (xs : List Location) (status : Status)
      → info_loop rounds index xs ≡ inl status
      → efi_error status ≡ true
  unfolding info_loop
  info_loop-error zero index xs status h = cc
  info_loop-error (suc rounds) index xs status h =
      let next =
        info_loop-error rounds (index + 1) (xs ++ (sv.get_processor_info index).1 ∷ []) status in
      ground (arith, next)

  on_infos-Ends :
      (number : ℕ) (r : Status ⊎ List Location)
      → info_loop number 0 [] ≡ r
      → Ends (on_infos number r)
  unfolding on_infos
  on_infos-Ends number (inl status) h =
      let failed = info_loop-error number 0 [] status h in inr (failed, λ e. cc)
  on_infos-Ends number (inr locations) h =
      let n : 0 + number ≡ number = omega arith in
      let filled = info_loop-Filled number 0 [] locations start-Filled h in
      inl (subst (λ k. Filled locations k) n filled, refl, refl)

  -- GetProcessorsCpuLocation either ends with the status of WhoAmI and an allocated buffer that holds
  -- the location of each processor at its number, none of which was an error, or with an error and
  -- no buffer allocated.
  pub get_processors_cpu_location-Ends : Ends get_processors_cpu_location
  unfolding get_processors_cpu_location
  get_processors_cpu_location-Ends =
      let number = sv.get_number_of_processors.1 in
      let infos = on_infos-Ends number (info_loop number 0 []) refl in
      elim (Bool-cases (efi_error sv.locate_protocol)) [
        | inl missing ↦ rw missing (inr (refl, λ e. cc))
        | inr there ↦ elim (Bool-cases (efi_error sv.get_number_of_processors.0)) [
          | inl unknown ↦ rw (there, unknown) (inr (unknown, λ e. cc))
          | inr known ↦
              elim (Bool-cases (efi_error (sv.allocate_pool (sv.info_size * number % 2 ^ 64)))) [
                | inl full ↦ rw (there, known, full) (inr (full, λ e. cc))
                | inr room ↦ rw (there, known, room) infos
              ]
        ]
      ]
