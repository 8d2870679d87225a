-- ===== src/Storage/Routing.antt =====
-- Which buckets `hex_id & (BUCKET_COUNT - 1)` reaches. An H3 index of resolution r ends in 15 - r
-- unused digits of three bits, all ones; at resolution 9 these are the last 18 bits.
use telemetrix_db.Base.{
  ℕ, ◌-◌, ◌*◌, ◌%◌, ◌^◌, ◌≤◌, ◌≡◌, ◌≢◌, ◌∙◌, sym, ap, Bool, true, false, Option, none, some, List,
  [], ◌∷◌, ◌==◌, ==_iff, update-other, map, replicate, ◌>>=◌, Bool-cases, Option-cases, inl, inr,
  arith,
}
use telemetrix_db.Storage.{
  H3, LatLng, Buckets, spatial_arena, arena_idx, cell_of, h3_resolution, update_bucket,
  update_arena,
}
use telemetrix_db.Storage.Arena.{Update, accepted, run, updates_refine}

-- The layout of an index that `latLngToCell` gives, as the H3 library documents it.
pub record CellLayout {Double : Type 0} (h3 : H3 Double) : Type 0 where
  pub unused_ones :
      (place : LatLng Double) (resolution cell : ℕ)
      → resolution ≤ 15
      → h3.lat_lng_to_cell place resolution ≡ (0, cell)
      → cell % 2 ^ (3 * (15 - resolution)) ≡ 2 ^ (3 * (15 - resolution)) - 1

last_bits : (cell : ℕ) → cell % 262144 ≡ 262143 → arena_idx cell ≡ 131071
last_bits cell h = omega arith

found-none : {A : Type 0} {a : A} → none ≡ some a → ⊥
found-none e = cc

same_buckets :
    {A B : Type 0} {x y : A} {b c : B}
    → ◌≡◌ {A = Option (A × B)} (some (x, b)) (some (y, c))
    → b ≡ c
same_buckets e = cc

module _ {Float Double : Type 0} (zero_float : Float) (h3 : H3 Double)
    (layout : CellLayout h3) where
  accepted-arena_idx :
      (lat lon : Double)
      → ((cell_of h3 lat lon).0 == 0) ≡ true
      → arena_idx (cell_of h3 lat lon).1 ≡ 131071
  accepted-arena_idx lat lon ok = last_bits _ (
      layout.unused_ones _ h3_resolution _ (omega arith)
        (ap (λ error. (error, (cell_of h3 lat lon).1)) ((==_iff _ _).0 ok)))

  update_arena-elsewhere :
      (u : Update Float Double) (i : ℕ) (b : Buckets Float) {b' : Buckets Float} {r : Bool}
      → i ≢ 131071
      → update_arena zero_float h3 u.lat u.lon u.sample.speed u.sample.timestamp b ≡ some (r, b')
      → b' i ≡ b i
  unfolding update_arena update_bucket
  update_arena-elsewhere u i b away e = elim (Bool-cases ((cell_of h3 u.lat u.lon).0 == 0)) [
    | inl ok ↦ elim (Bool-cases (b (arena_idx (cell_of h3 u.lat u.lon).1)).lock) [
      | inl shut ↦ absurd (found-none (rw (ok, shut) at e))
      | inr free ↦
          ap (λ g. g i) (sym (same_buckets (rw (ok, free) at e)))
          ∙ update-other b _ _ i (λ h. away (sym h ∙ accepted-arena_idx u.lat u.lon ok))
    ]
    | inr bad ↦ ap (λ g. g i) (sym (same_buckets (rw bad at e)))
  ]

  run-elsewhere :
      (us : List (Update Float Double)) (i : ℕ) (b : Buckets Float) {b' : Buckets Float}
      {rs : List Bool}
      → i ≢ 131071
      → run zero_float h3 us b ≡ some (rs, b')
      → b' i ≡ b i
  unfolding run
  run-elsewhere [] i b away e = ap (λ g. g i) (sym (same_buckets e))
  run-elsewhere (u ∷ us) i b away e =
      elim (Option-cases
        (update_arena zero_float h3 u.lat u.lon u.sample.speed u.sample.timestamp b)) [
          | inl fails ↦ absurd (found-none (rw fails at e))
          | inr ((r, b1), first) ↦ elim (Option-cases (run zero_float h3 us b1)) [
            | inl fails ↦ absurd (found-none (rw (first, ◌>>=◌, fails) at e))
            | inr ((rs, b2), rest) ↦
                ap (λ g. g i) (sym (same_buckets (rw (first, ◌>>=◌, rest) at e)))
                ∙ run-elsewhere us i b1 away rest
                ∙ update_arena-elsewhere u i b away first
          ]
        ]

  -- With the documented layout of H3 indices, the updates of a new arena reach one bucket only:
  -- every sequence of them returns, and then every bucket but the one with index 131071 is as the
  -- constructor left it: no cell, no sample, the head at 0, unlocked.
  pub run-one_bucket :
      (us : List (Update Float Double)) (i : ℕ)
      → i ≢ 131071
      → (buckets : Buckets Float) × (run zero_float h3 us (spatial_arena zero_float)
          ≡ some (map (accepted zero_float h3) us, buckets))
        × (buckets i ≡ record {
          h3_index = 0;
          window = record {
            timestamps = replicate 60 0;
            speeds = replicate 60 zero_float;
            head = 0;
          };
          lock = false;
        })
  run-one_bucket us i away =
      let (buckets, e, shows) = updates_refine zero_float h3 us in
      (buckets, e, run-elsewhere us i (spatial_arena zero_float) away e)
