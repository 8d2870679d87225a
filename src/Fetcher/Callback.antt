-- ===== src/Fetcher/Callback.antt =====
-- One call of the callback: the struct's bytes grow by the chunk, or stay.
use Prim.Native.Nat.add
use telemetrix_db.Base.{
  ℕ, ◌+◌, ◌^◌, ◌<◌, ◌≤◌, ◌≡◌, ◌∙◌, ◌⊎◌, inl, inr, subst, ap, ap₂, sym, refl, Option, none, some,
  List, [], ◌∷◌, ◌++◌, length, take, set, length-append, arith,
}
use telemetrix_db.Fetcher.{
  MemoryStruct, memcpy, Realloc, size_t, after_realloc, write_memory_callback,
}

-- What the C standard says of `realloc`: a new block has the size asked for, and keeps the old
-- bytes as far as it reaches.
pub record IsRealloc (realloc : Realloc) : Type 0 where
  pub sized : (p : Option (List ℕ)) (n : ℕ) {b : List ℕ} → realloc p n ≡ some b → length b ≡ n
  pub keeps :
      (old : List ℕ) (n k : ℕ) {b : List ℕ}
      → realloc (some old) n ≡ some b
      → k ≤ length old
      → k ≤ n
      → take k b ≡ take k old

-- The struct holds these bytes: they stand at the start of its block, which is longer.
abbrev pub BlockHolds : Option (List ℕ) → List ℕ → Type 0
BlockHolds none bytes = bytes ≡ []
BlockHolds (some block) bytes = (take (length bytes) block ≡ bytes) × (length bytes < length block)

pub record HoldsBytes (mem : MemoryStruct) (bytes : List ℕ) : Type 0 where
  pub size : mem.size ≡ length bytes
  pub block : BlockHolds mem.memory bytes

fill_block :
    (src block : List ℕ)
    → length block ≡ length src + 1
    → set (memcpy block 0 src) (length src) 0 ≡ src ++ (0 ∷ [])
unfolding memcpy
fill_block [] [] h = absurd (omega arith)
fill_block [] (b ∷ []) h = refl
fill_block [] (b ∷ c ∷ block) h = absurd (omega arith)
fill_block (c ∷ src) [] h = absurd (omega arith)
fill_block (c ∷ src) (b ∷ block) h = ap (λ t. c ∷ t) (fill_block src block (omega arith))

-- The chunk behind the old bytes, and the NUL behind it.
append_chunk :
    (bytes src block : List ℕ)
    → take (length bytes) block ≡ bytes
    → length block ≡ length bytes + length src + 1
    → set (memcpy block (length bytes) src) (length bytes + length src) 0 ≡ bytes ++ src ++ (0 ∷ [])
unfolding memcpy
append_chunk [] src block e h = rw add.zero (fill_block src block (omega arith))
append_chunk (d ∷ bytes) src [] e h = cc
append_chunk (d ∷ bytes) [] (b ∷ block) e h =
    rw add.suc (ap₂ ◌∷◌ (cc) (append_chunk bytes [] block (cc) (omega arith)))
append_chunk (d ∷ bytes) (c ∷ src) (b ∷ block) e h =
    rw add.suc (ap₂ ◌∷◌ (cc) (append_chunk bytes (c ∷ src) block (cc) (omega arith)))

pub take_all : (bytes rest : List ℕ) → take (length bytes) (bytes ++ rest) ≡ bytes
take_all [] rest = refl
take_all (b ∷ bytes) rest = ap (λ t. b ∷ t) (take_all bytes rest)

module _ (realloc : Realloc) (law : IsRealloc realloc) where
  -- The bytes of a grown block are the old ones as far as they were held.
  grown :
      (p : Option (List ℕ)) (bytes block : List ℕ) (n : ℕ)
      → BlockHolds p bytes
      → length bytes ≤ n
      → realloc p n ≡ some block
      → take (length bytes) block ≡ bytes
  grown none bytes block n h le e = rw h
  grown (some old) bytes block n h le e = law.keeps old n (length bytes) e (omega arith) le ∙ h.0

  -- What a call for a chunk does: it takes the whole chunk, and the struct holds it behind its old
  -- bytes, followed by a NUL; or, if memory is short, it returns 0 and changes nothing.
  abbrev pub Took : List ℕ → List ℕ → MemoryStruct → ℕ × MemoryStruct → Type 0
  Took bytes chunk mem o =
      ((o.0 ≡ length chunk)
        × (o.1.memory ≡ some (bytes ++ chunk ++ (0 ∷ [])))
        × (o.1.size ≡ length (bytes ++ chunk)))
      ⊎ ((o.0 ≡ 0) × (o.1 ≡ mem) × (realloc mem.memory (mem.size + length chunk + 1) ≡ none))

  no_wrap :
      (chunk : List ℕ) (mem : MemoryStruct)
      → mem.size + length chunk + 1 < 2 ^ 64
      → write_memory_callback realloc chunk 1 (length chunk) mem
        ≡ after_realloc chunk mem (length chunk) (realloc mem.memory (mem.size + length chunk + 1))
  unfolding write_memory_callback
  no_wrap chunk mem small =
      ap₂ (λ r n. after_realloc chunk mem r (realloc mem.memory n)) (omega arith) (omega arith)

  answered :
      (bytes chunk : List ℕ) {mem : MemoryStruct} (answer : Option (List ℕ))
      → HoldsBytes mem bytes
      → mem.size + length chunk + 1 < 2 ^ 64
      → realloc mem.memory (mem.size + length chunk + 1) ≡ answer
      → Took bytes chunk mem (after_realloc chunk mem (length chunk) answer)
  unfolding after_realloc
  answered bytes chunk none h small e = inr (refl, refl, e)
  answered bytes chunk {mem} (some ptr) h small e =
      inl (refl, ap some placed, omega (arith, h.size, length-append bytes chunk))
    where
      placed :
          set (memcpy ptr mem.size chunk) (size_t (mem.size + length chunk)) 0
          ≡ bytes ++ chunk ++ (0 ∷ [])
      placed =
          ap₂ (λ k n. set (memcpy ptr k chunk) n 0) h.size (omega (arith, h.size))
          ∙ append_chunk bytes chunk ptr
              (grown mem.memory bytes ptr _ h.block (omega (arith, h.size)) e)
              (omega (arith, h.size, law.sized mem.memory _ e))

  -- Called for a chunk, on a block that holds the bytes so far, when no size wraps around and
  -- realloc keeps its contract: the callback takes the chunk whole, behind these bytes, or changes
  -- nothing.
  pub callback_lem :
      (bytes chunk : List ℕ) {mem : MemoryStruct}
      → HoldsBytes mem bytes
      → length bytes + length chunk + 1 < 2 ^ 64
      → Took bytes chunk mem (write_memory_callback realloc chunk 1 (length chunk) mem)
  callback_lem bytes chunk {mem} h small =
      subst (Took bytes chunk mem) (sym (no_wrap chunk mem (omega (arith, h.size))))
        (answered bytes chunk _ h (omega (arith, h.size)) refl)
