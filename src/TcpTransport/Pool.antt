-- ===== src/TcpTransport/Pool.antt =====
-- The pool as TcpTransport.c uses it: blocks that AllocateZeroPool gave and FreePool took back. What
-- C leaves undefined has no result.
use uefi_toolkit_pkg.Base.{
  ℕ, zero, suc, ◌+◌, ◌≤◌, ◌≡◌, refl, sym, ap, ◌∙◌, Bool, true, false, List, [], ◌∷◌, ◌++◌,
  append-nil, Option, none, some, and_then, arith, Bytes, length, length-append, take, drop,
  take-append, drop-append_add, replicate, get_or, set, set-append, leb, if◌then◌else◌,
  get_or-append_self,
}

-- `wild` is an uninitialised pointer.
pub data Pointer : Type 0 where
  null wild : Pointer
  at : ℕ → Pointer

-- The blocks in the order of their allocation; `none` is one that was freed.
abbrev pub Pool : Type 0
Pool = List (Option Bytes)

abbrev pub is_null : Pointer → Bool
is_null null = true
is_null wild = false
is_null (at i) = false

-- The block behind a pointer.
abbrev pub block : Pointer → Pool → Option Bytes
block null pool = none
block wild pool = none
block (at i) pool = get_or pool i none

unfoldable pub store : Pointer → Option Bytes → Pool → Pool
store null b pool = pool
store wild b pool = pool
store (at i) b pool = set pool i b

-- AllocateZeroPool; `can` tells which sizes the pool has room for.
unfoldable pub allocate_zero_pool : (ℕ → Bool) → ℕ → Pool → Pointer × Pool
allocate_zero_pool can n pool =
    if can n then (at (length pool), pool ++ some (replicate n 0) ∷ []) else (null, pool)

unfoldable pub free_pool : Pointer → Pool → Option Pool
free_pool ptr pool = and_then (block ptr pool) (λ b. some (store ptr none pool))

-- The first `n` bytes behind a pointer.
unfoldable pub read_mem : Pointer → ℕ → Pool → Option Bytes
read_mem ptr zero pool = some []
read_mem ptr (suc n) pool =
    and_then (block ptr pool) (λ b. if leb (suc n) (length b) then some (take (suc n) b) else none)

-- CopyMem to a place in a block.
unfoldable pub copy_mem : Pointer → ℕ → Bytes → Pool → Option Pool
copy_mem ptr offset [] pool = some pool
copy_mem ptr offset (c ∷ bytes) pool =
    let n = length (c ∷ bytes) in
    and_then (block ptr pool) (λ b.
      if leb (offset + n) (length b)
      then some (store ptr (some (take offset b ++ (c ∷ bytes) ++ drop (offset + n) b)) pool)
      else none)

module _ (pre : Pool) (b : Bytes) (post : Pool) where
  pub free_pool_lem : free_pool (at (length pre)) (pre ++ some b ∷ post) ≡ some (pre ++ none ∷ post)
  unfolding free_pool store
  free_pool_lem =
      rw (get_or-append_self pre post (some b) none, set-append pre post (some b) none) refl

  -- A block that holds `old` and some zeros.
  pub read_mem_lem :
      (old rest : Bytes)
      → b ≡ old ++ rest
      → read_mem (at (length pre)) (length old) (pre ++ some b ∷ post) ≡ some old
  unfolding read_mem
  read_mem_lem [] rest whole = refl
  read_mem_lem (c ∷ old) rest whole =
      let size = length-append (c ∷ old) rest in
      let fits : leb (suc (length old)) (length b) ≡ true = ground (arith, ap length whole, size) in
      let part : take (suc (length old)) b ≡ c ∷ old =
        ap (take (suc (length old))) whole ∙ take-append (c ∷ old) rest in
      rw (get_or-append_self pre post (some b) none, fits, part) refl

  pub copy_mem_lem :
      (old new rest : Bytes)
      → b ≡ old ++ rest
      → length new ≤ length rest
      → copy_mem (at (length pre)) (length old) new (pre ++ some b ∷ post)
        ≡ some (pre ++ some ((old ++ new) ++ drop (length new) rest) ∷ post)
  unfolding copy_mem store
  copy_mem_lem old [] rest whole fits =
      ap (λ k. some (pre ++ some k ∷ post)) (whole ∙ ap (λ k. k ++ rest) (sym (append-nil old)))
  copy_mem_lem old (c ∷ new) rest whole fits =
      let n = length (c ∷ new) in
      let size = length-append old rest in
      let inside : leb (length old + n) (length b) ≡ true = ground (arith, ap length whole, size) in
      let front : take (length old) b ≡ old = ap (take (length old)) whole ∙ take-append old rest in
      let back : drop (length old + n) b ≡ drop n rest =
        ap (drop (length old + n)) whole ∙ drop-append_add old rest (length old + n) n refl in
      rw
        (
          get_or-append_self pre post (some b) none,
          inside,
          front,
          back,
          set-append pre post (some b) (some (old ++ (c ∷ new) ++ drop n rest)),
        )
        refl
