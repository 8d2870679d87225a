-- ===== src/Fetcher/Tests.antt =====
-- A download in two chunks.
use telemetrix_db.Base.{
  ℕ, ◌≡◌, ◌≢◌, ◌↔◌, refl, Bool, true, Option, none, some, List, [], ◌∷◌, length, arith,
}
use telemetrix_db.Memory.{Live}
use telemetrix_db.Fetcher.{
  memcpy, after_realloc, write_memory_callback, Transfer, perform, fetch_gtfs_data,
}
use telemetrix_db.Fetcher.Callback.{HoldsBytes, Took, callback_lem}
use telemetrix_db.Fetcher.Plenty.{resize, plenty, plenty-IsRealloc, plenty-never_short}
use telemetrix_db.Fetcher.Download.{Delivers, fetch-Delivers, fetch-succeeds_iff}

abbrev two_chunks : Transfer
two_chunks = record { chunks = (1 ∷ 2 ∷ []) ∷ (3 ∷ []) ∷ []; ends_well = true }

abbrev idle_memory : Live
idle_memory = record { blocks = 5; handles = 2; messages = 1 }

two_chunks-result : fetch_gtfs_data plenty (some (9 ∷ [])) true two_chunks idle_memory ≡ record {
  payload = some (1 ∷ 2 ∷ 3 ∷ 0 ∷ []);
  out_size = some 3;
  live = record idle_memory { blocks = 6 };
}
unfolding fetch_gtfs_data perform write_memory_callback after_realloc memcpy resize
two_chunks-result = refl

one_byte : (b : List ℕ) → ◌≡◌ {A = Option (List ℕ)} (some (9 ∷ [])) (some b) → length b ≡ 1
one_byte b e = ground arith

held : HoldsBytes (record { memory = some (1 ∷ 2 ∷ 0 ∷ []); size = 2 }) (1 ∷ 2 ∷ [])
held = record { size = refl; block = (refl, omega arith) }

callback_lem_example :
    Took plenty plenty-IsRealloc
      (1 ∷ 2 ∷ [])
      (3 ∷ [])
      (record { memory = some (1 ∷ 2 ∷ 0 ∷ []); size = 2 })
      (write_memory_callback plenty
        (3 ∷ [])
        1
        1
        (record { memory = some (1 ∷ 2 ∷ 0 ∷ []); size = 2 }))
callback_lem_example = callback_lem plenty plenty-IsRealloc (1 ∷ 2 ∷ []) (3 ∷ []) held (omega arith)

fetch-Delivers_example :
    Delivers two_chunks idle_memory true
      (fetch_gtfs_data plenty (some (9 ∷ [])) true two_chunks idle_memory)
fetch-Delivers_example =
    fetch-Delivers plenty plenty-IsRealloc (some (9 ∷ [])) two_chunks idle_memory one_byte
      (omega arith) true

fetch-succeeds_iff_example :
    ((fetch_gtfs_data plenty (some (9 ∷ [])) true two_chunks idle_memory).out_size ≢ none)
    ↔ ((◌≡◌ {A = Bool} true true) × (◌≡◌ {A = Bool} true true))
fetch-succeeds_iff_example =
    fetch-succeeds_iff plenty plenty-IsRealloc (some (9 ∷ [])) two_chunks idle_memory one_byte
      (omega arith) true plenty-never_short
