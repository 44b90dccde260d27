-- ===== src/RamDebug/Print.antt =====
-- RamDebugPrint on a region that holds records: what it logs, and that it stays in the buffer.
use uefi_toolkit_pkg.Base.{
  drop-replicate, ℕ, suc, ◌+◌, ◌-◌, ◌%◌, ◌^◌, ◌≤◌, ◌<◌, ◌≡◌, refl, sym, ap, ap₂, ◌∙◌, true, false,
  List, [], ◌∷◌, ◌++◌, append_assoc, arith, Bytes, length, length-append, length-replicate, drop,
  replicate, leb, ◌==◌,
}
use uefi_toolkit_pkg.RamDebug.{
  ran, Ram, Setup, header_id, default_value, ram_debug_disable, buffer_size, fill, remove_records,
  move, save, ram_debug_clean_up, save_record,
}
use uefi_toolkit_pkg.RamDebug.Index.{write_latest-eq}
use uefi_toolkit_pkg.RamDebug.Loops.{region, move_lem, save_lem, fill_lem}
use uefi_toolkit_pkg.RamDebug.Log.{
  flat, flat-append, keep, represent, Texts, remove_records-Removed,
}

-- A set-up with which the log works: the PCDs are set, the sums of two sizes have 32 bits, the
-- region can be written, and logging is not switched off in the CMOS.
pub record Active (s : Setup) : Type 0 where
  pub placed : (s.base == 0) ≡ false
  pub some_size : 16 ≤ s.size
  pub narrow : s.size < 2 ^ 31
  pub writable : s.writable ≡ true
  pub enabled : (s.cmos == ram_debug_disable) ≡ false

-- The bytes of the print buffer.
abbrev pub capacity : Setup → ℕ
capacity s = s.size - 16

-- Room for a message and its NUL is made, and the message is the newest record.
abbrev pub logged : ℕ → List Bytes → Bytes → List Bytes
logged n rs m = keep (length m + 1) (n - length (flat rs)) rs ++ m ∷ []

clean_up_steps :
    (s : Setup) (need latest offset left : ℕ) (ram moved filled : Ram)
    → remove_records (suc need) ram need 0 ((buffer_size s + 2 ^ 64 - latest) % 2 ^ 32) ≡ ran offset
    → (latest + 2 ^ 32 - offset) % 2 ^ 32 ≡ left
    → move s left offset 0 ram ≡ ran moved
    → fill s ((buffer_size s + 2 ^ 64 - left) % 2 ^ 64) left moved ≡ ran filled
    → ram_debug_clean_up s need latest ram ≡ ran (left, filled)
unfolding ram_debug_clean_up
clean_up_steps s need latest offset left ram moved filled removed rest forward default =
    rw (removed, rest, forward, default) refl

module _ (s : Setup) (n : ℕ) (w : s.writable ≡ true) (size : buffer_size s ≡ n)
    (small : n < 2 ^ 31) where
  -- The records left, the index still the old one.
  unfoldable pub cleaned : List Bytes → ℕ → Ram
  cleaned ks latest =
      region header_id latest (flat ks ++ replicate (n - length (flat ks)) default_value)

  pub clean_up_lem :
      (rs : List Bytes) (need : ℕ)
      → Texts rs
      → length (flat rs) ≤ n
      → need ≤ n
      → let ks = keep need (n - length (flat rs)) rs in
        ram_debug_clean_up s need (length (flat rs)) (represent n rs)
        ≡ ran (length (flat ks), cleaned ks (length (flat rs)))
  unfolding cleaned
  clean_up_lem rs need texts inside fits =
      let used = length (flat rs) in
      let room = n - used in
      let ks = keep need room rs in
      let rest = replicate room default_value in
      let h =
        remove_records-Removed rs [] rest (flat rs ++ rest) header_id used (suc need) need 0 room
          texts refl refl (omega arith) (omega arith) (omega arith) (omega arith) (omega arith) in
      let free : (buffer_size s + 2 ^ 64 - used) % 2 ^ 32 ≡ room = omega (arith, size) in
      let parts : used ≡ length h.gap + length (flat ks) =
        ap length h.whole ∙ length-append h.gap (flat ks) in
      let left : (used + 2 ^ 32 - length h.gap) % 2 ^ 32 ≡ length (flat ks) =
        omega (arith, parts) in
      let m =
        move_lem s w header_id used (flat ks) [] h.gap rest (flat rs ++ rest) (length h.gap) 0 refl
          refl (ap (λ b. b ++ rest) h.whole ∙ append_assoc h.gap (flat ks) rest) in
      let whole : length (flat ks ++ m.tail) ≡ n =
        omega (arith, m.sized, length-append (flat rs) rest, length-replicate room default_value) in
      let tail : length m.tail ≡ n - length (flat ks) =
        omega (arith, whole, length-append (flat ks) m.tail) in
      let count : (buffer_size s + 2 ^ 64 - length (flat ks)) % 2 ^ 64 ≡ length m.tail =
        omega (arith, size, tail, parts) in
      clean_up_steps s need used (length h.gap) (length (flat ks)) (represent n rs)
        (region header_id used (flat ks ++ m.tail))
        (region header_id used (flat ks ++ replicate (n - length (flat ks)) default_value))
        (ap (remove_records (suc need) (represent n rs) need 0) free ∙ h.returns) left m.returns
        (ap (λ k. fill s k (length (flat ks)) (region header_id used (flat ks ++ m.tail))) count
          ∙ (fill_lem s w header_id used m.tail (flat ks) (flat ks ++ m.tail) (length (flat ks))
                refl refl
              ∙ ap (λ k. ran (region header_id used (flat ks ++ replicate k default_value))) tail))

  save_record_steps :
      (bytes : Bytes) (temp latest sum : ℕ) (ram saved : Ram)
      → (latest + temp) % 2 ^ 32 ≡ sum
      → sum ≤ n
      → save s bytes latest ram ≡ ran saved
      → save_record s bytes temp latest ram ≡ ran (record saved { latest_idx = sum })
  unfolding save_record
  save_record_steps bytes temp latest sum ram saved total fits stored =
      let room : leb sum n ≡ true = ground arith in
      rw (total, size, room, stored, write_latest-eq s sum saved w) refl

  pub save_record_lem :
      (ks : List Bytes) (m : Bytes) (latest : ℕ)
      → length (flat ks) + (length m + 1) ≤ n
      → save_record s (m ++ 0 ∷ []) (length m + 1) (length (flat ks)) (cleaned ks latest)
        ≡ ran (represent n (ks ++ m ∷ []))
  unfolding cleaned
  save_record_lem ks m latest fits =
      let used = length (flat ks) in
      let bytes = m ++ 0 ∷ [] in
      let count : length bytes ≡ length m + 1 = length-append m (0 ∷ []) in
      let joined : flat (ks ++ m ∷ []) ≡ flat ks ++ bytes = flat-append ks (m ∷ []) in
      let total : length (flat (ks ++ m ∷ [])) ≡ used + (length m + 1) =
        omega (arith, ap length joined, length-append (flat ks) bytes, count) in
      let free = replicate (n - used) default_value in
      let stored =
        save_lem s w header_id latest bytes free (flat ks) (flat ks ++ free) used refl refl
          (omega (arith, count, length-replicate (n - used) default_value)) in
      let after : drop (length bytes) free
          ≡ replicate (n - length (flat (ks ++ m ∷ []))) default_value =
        drop-replicate (length bytes) (n - used) default_value
        ∙ ap (λ k. replicate k default_value) (omega (arith, count, total)) in
      save_record_steps bytes (length m + 1) used (used + (length m + 1))
        (region header_id latest (flat ks ++ free)) _ (omega arith) fits stored
      ∙ (ap (λ k. ran (region header_id k ((flat ks ++ bytes) ++ drop (length bytes) free)))
            (sym total)
          ∙ ap₂ (λ a b. ran (region header_id (length (flat (ks ++ m ∷ []))) (a ++ b))) (sym joined)
              after)
