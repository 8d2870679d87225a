-- ===== src/Fetcher/Download.antt =====
-- A whole transfer: what comes back is the body, or nothing and no memory kept.
use mathlib.Core.Bool.{false≢true}
use telemetrix_db.Base.{
  ℕ, ◌+◌, ◌^◌, ◌<◌, ◌≡◌, ◌≢◌, ◌∙◌, ◌↔◌, inl, inr, subst, sym, ap, refl, Bool, true, false, Option,
  none, some, List, [], ◌∷◌, ◌++◌, append-nil, append_assoc, length, length-append, Bool-cases,
  Option-cases, ◌==◌, ==_iff, arith,
}
use telemetrix_db.Memory.{Live, keep, free, new_handle, free-keep, cleanup-keep}
use telemetrix_db.Fetcher.{
  MemoryStruct, Fetched, Realloc, Transfer, write_memory_callback, perform, after_transfer,
  fetch_gtfs_data,
}
use telemetrix_db.Fetcher.Callback.{IsRealloc, BlockHolds, HoldsBytes, Took, take_all, callback_lem}

-- The body of a transfer.
abbrev pub body : List (List ℕ) → List ℕ
body [] = []
body (c ∷ cs) = c ++ body cs

module _ (realloc : Realloc) (law : IsRealloc realloc) where
  Took-all :
      (bytes chunk : List ℕ) {mem : MemoryStruct} {o : ℕ × MemoryStruct}
      → ((p : Option (List ℕ)) (n : ℕ) → realloc p n ≢ none)
      → Took realloc law bytes chunk mem o
      → o.0 ≡ length chunk
  Took-all bytes chunk room (inl (n, block, size)) = n
  Took-all bytes chunk room (inr (n, same, short)) = absurd (room _ _ short)

  -- If the call counts as taken, the struct holds the chunk too.
  taken-HoldsBytes :
      (bytes chunk : List ℕ) {mem : MemoryStruct} (o : ℕ × MemoryStruct)
      → HoldsBytes mem bytes
      → Took realloc law bytes chunk mem o
      → o.0 ≡ length chunk
      → HoldsBytes o.1 (bytes ++ chunk)
  taken-HoldsBytes bytes chunk o h (inl (n, block, size)) e = record {
    size = size;
    block =
        subst (λ m. BlockHolds m (bytes ++ chunk)) (sym block)
          (
            take_all (bytes ++ chunk) (0 ∷ []),
            omega (arith, length-append (bytes ++ chunk) (0 ∷ [])),
          );
  }
  taken-HoldsBytes bytes [] o h (inr (n, same, short)) e =
      subst (λ m. HoldsBytes m (bytes ++ [])) (sym same) (rw append-nil h)
  taken-HoldsBytes bytes (c ∷ chunk) o h (inr (n, same, short)) e = absurd (omega arith)

  perform-HoldsBytes :
      (cs : List (List ℕ)) (ends_well : Bool) (bytes : List ℕ) {mem : MemoryStruct}
      → HoldsBytes mem bytes
      → length bytes + length (body cs) + 1 < 2 ^ 64
      → (perform realloc cs ends_well mem).0 ≡ true
      → HoldsBytes (perform realloc cs ends_well mem).1 (bytes ++ body cs) × (ends_well ≡ true)
  unfolding perform
  perform-HoldsBytes [] ends_well bytes h small ok = (rw append-nil h, ok)
  perform-HoldsBytes (c ∷ cs) ends_well bytes {mem} h small ok =
      elim (Bool-cases ((write_memory_callback realloc c 1 (length c) mem).0 == length c)) [
        | inl taken ↦
            let (holds, well) =
              perform-HoldsBytes cs ends_well (bytes ++ c)
                (taken-HoldsBytes bytes c _ h
                  (callback_lem realloc law bytes c h (omega (arith, length-append c (body cs))))
                  ((==_iff _ _).0 taken))
                (omega (arith, length-append bytes c, length-append c (body cs)))
                (rw taken at ok) in
            rw (taken, ← append_assoc bytes c (body cs)) (holds, well)
        | inr cut ↦ absurd (false≢true (rw cut at ok))
      ]

  -- If memory never runs short, the transfer ends as the network lets it.
  perform-ends :
      (cs : List (List ℕ)) (ends_well : Bool) (bytes : List ℕ) {mem : MemoryStruct}
      → ((p : Option (List ℕ)) (n : ℕ) → realloc p n ≢ none)
      → HoldsBytes mem bytes
      → length bytes + length (body cs) + 1 < 2 ^ 64
      → (perform realloc cs ends_well mem).0 ≡ ends_well
  unfolding perform
  perform-ends [] ends_well bytes room h small = refl
  perform-ends (c ∷ cs) ends_well bytes {mem} room h small =
      let took = callback_lem realloc law bytes c h (omega (arith, length-append c (body cs))) in
      let all = Took-all bytes c room took in
      rw ((==_iff _ _).1 all) (
        perform-ends cs ends_well (bytes ++ c) room (taken-HoldsBytes bytes c _ h took all)
          (omega (arith, length-append bytes c, length-append c (body cs))))

failed :
    (r : Bool × MemoryStruct) (live : Live)
    → (after_transfer r (keep r.1.memory (new_handle live))).out_size ≡ none
    → ((after_transfer r (keep r.1.memory (new_handle live))).payload ≡ none)
      × ((after_transfer r (keep r.1.memory (new_handle live))).live ≡ live)
failed (true, chunk) live e = absurd cc
failed (false, chunk) live e =
    (refl, ap (free chunk.memory) (cleanup-keep chunk.memory live) ∙ free-keep chunk.memory live)

-- A download that reports no size returns null and keeps no block.
pub fetch-failure :
    (realloc : Realloc) (first : Option (List ℕ)) (handle : Bool) (transfer : Transfer)
    (live : Live)
    → (fetch_gtfs_data realloc first handle transfer live).out_size ≡ none
    → ((fetch_gtfs_data realloc first handle transfer live).payload ≡ none)
      × ((fetch_gtfs_data realloc first handle transfer live).live ≡ live)
unfolding fetch_gtfs_data
fetch-failure realloc first false transfer live e = (refl, free-keep first live)
fetch-failure realloc first true transfer live e =
    failed
      (perform realloc transfer.chunks transfer.ends_well (record { memory = first; size = 0 }))
      live e

-- What a download gives: null and nothing new, or the whole body.
abbrev pub Delivers : Transfer → Live → Bool → Fetched → Type 0
Delivers transfer live handle f = elim f.out_size [
  | none ↦ (f.payload ≡ none) × (f.live ≡ live)
  | some n ↦
      (handle ≡ true)
      × (transfer.ends_well ≡ true)
      × (n ≡ length (body transfer.chunks))
      × BlockHolds f.payload (body transfer.chunks)
      × (f.live ≡ keep f.payload live)
]

module _ (realloc : Realloc) (law : IsRealloc realloc) (first : Option (List ℕ))
    (transfer : Transfer) (live : Live) (one_byte : (b : List ℕ) → first ≡ some b → length b ≡ 1)
    (small : length (body transfer.chunks) + 1 < 2 ^ 64) where
  abbrev result : Bool × MemoryStruct
  result = perform realloc transfer.chunks transfer.ends_well (record { memory = first; size = 0 })

  first-BlockHolds : (p : Option (List ℕ)) → first ≡ p → BlockHolds p []
  first-BlockHolds none e = refl
  first-BlockHolds (some b) e = (refl, omega (arith, one_byte b e))

  start-HoldsBytes : HoldsBytes (record { memory = first; size = 0 }) []
  start-HoldsBytes = record { size = refl; block = first-BlockHolds first refl }

  -- If no size wraps around and realloc keeps its contract, a download that reports a size gives
  -- the whole body and nothing else: curl started, the transfer ended well, the size is the
  -- body's, the payload begins with the body (a null payload means an empty one), and the only
  -- block kept is the payload's.
  pub fetch-success :
      (handle : Bool) {n : ℕ}
      → (fetch_gtfs_data realloc first handle transfer live).out_size ≡ some n
      → (handle ≡ true)
        × (transfer.ends_well ≡ true)
        × (n ≡ length (body transfer.chunks))
        × BlockHolds
            (fetch_gtfs_data realloc first handle transfer live).payload
            (body transfer.chunks)
        × ((fetch_gtfs_data realloc first handle transfer live).live
            ≡ keep (fetch_gtfs_data realloc first handle transfer live).payload live)
  unfolding fetch_gtfs_data
  fetch-success false e = cc
  fetch-success true {n} e = elim (Bool-cases result.0) [
    | inl ok ↦
        let (holds, well) =
          perform-HoldsBytes realloc law transfer.chunks transfer.ends_well [] start-HoldsBytes
            (omega arith) ok in
        let size : some result.1.size ≡ some n = rw ok at e in
        let same : n ≡ result.1.size = cc size in
        rw ok (refl, well, same ∙ holds.size, holds.block, cleanup-keep result.1.memory live)
    | inr cut ↦ absurd (not_some (rw cut at e))
  ]
    where
      not_some : ◌≡◌ {A = Option ℕ} none (some n) → ⊥
      not_some h = cc

  -- If realloc keeps its contract and never fails, and no size wraps around, a download reports a
  -- size exactly if curl starts and the transfer ends well.
  pub fetch-succeeds_iff :
      (handle : Bool)
      → ((p : Option (List ℕ)) (n : ℕ) → realloc p n ≢ none)
      → ((fetch_gtfs_data realloc first handle transfer live).out_size ≢ none)
        ↔ ((handle ≡ true) × (transfer.ends_well ≡ true))
  unfolding fetch_gtfs_data
  fetch-succeeds_iff false room = (λ h. absurd (h refl), λ h. cc)
  fetch-succeeds_iff true room =
      let ends =
        perform-ends realloc law transfer.chunks transfer.ends_well [] room start-HoldsBytes
          (omega arith) in
      rw ends (elim (Bool-cases transfer.ends_well) [
        | inl well ↦ rw well (λ h. (refl, refl), λ h g. cc)
        | inr ill ↦ rw ill (λ h. absurd (h refl), λ h. cc)
      ])

  -- If no size wraps around and realloc keeps its contract: a download that reports no size returns
  -- null and keeps no block. One that reports a size gives the whole body and nothing else: curl
  -- started, the transfer ended well, the size is the body's, the payload begins with the body (a
  -- null payload means an empty one), and the only block kept is the payload's.
  pub fetch-Delivers :
      (handle : Bool)
      → Delivers transfer live handle (fetch_gtfs_data realloc first handle transfer live)
  fetch-Delivers handle =
      elim (Option-cases (fetch_gtfs_data realloc first handle transfer live).out_size) [
        | inl missing ↦ rw missing (fetch-failure realloc first handle transfer live missing)
        | inr (n, found) ↦ rw found (fetch-success handle found)
      ]
