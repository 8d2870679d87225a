-- ===== src/Storage/Arena.antt =====
-- The whole arena, under any sequence of updates, against one track for each bucket.
use telemetrix_db.Base.{
  ℕ, ◌<◌, ◌≡◌, refl, Bool, true, false, Option, some, List, [], ◌∷◌, ◌==◌, ◌>>=◌, if◌then◌else◌,
  update, update-related, map, Bool-cases, inl, inr, arith,
}
use telemetrix_db.Storage.{
  HexBucket, H3, Buckets, bucket_count, spatial_arena, arena_idx, write_bucket, update_bucket,
  cell_of, update_arena,
}
use telemetrix_db.Storage.Window.{
  Sample, Track, Shows, track_sample, write_bucket-Shows, empty_window-shows,
}

-- An update, as the consumer asks for it.
pub record Update (Float Double : Type 0) : Type 0 where
  pub lat : Double
  pub lon : Double
  pub sample : Sample Float

abbrev pub Tracks : Type 0 → Type 0
Tracks Float = ℕ → Track Float

abbrev pub no_tracks : {Float : Type 0} → Tracks Float
no_tracks i = record { cell = 0; samples = [] }

module _ {Float : Type 0} (zero_float : Float) where
  -- Every bucket is unlocked and shows its track.
  abbrev pub ArenaShows : Buckets Float → Tracks Float → Type 0
  ArenaShows buckets tracks =
      (i : ℕ) → Shows zero_float (buckets i) (tracks i) × ((buckets i).lock ≡ false)

  pub spatial_arena-shows : ArenaShows (spatial_arena zero_float) no_tracks
  spatial_arena-shows i = (record { cell = refl; window = empty_window-shows zero_float }, refl)

  released :
      (hex_id : ℕ) (s : Sample Float) {b : HexBucket Float} {t : Track Float}
      → Shows zero_float b t
      → Shows zero_float
          (record (write_bucket zero_float hex_id s.speed s.timestamp (record b { lock = true })) {
            lock = false;
          })
          (track_sample zero_float hex_id s t)
  released hex_id s {b} v =
      let locked : HexBucket Float = record b { lock = true } in
      let w =
        write_bucket-Shows zero_float hex_id s {b = locked}
          (record { cell = v.cell; window = v.window }) in
      record { cell = w.cell; window = w.window }

  update_bucket-shows :
      (hex_id : ℕ) (s : Sample Float) {buckets : Buckets Float} {tracks : Tracks Float}
      → ArenaShows buckets tracks
      → (buckets' : Buckets Float) × (update_bucket zero_float hex_id s.speed s.timestamp buckets
          ≡ some buckets')
        × ArenaShows buckets' (
            update tracks
              (arena_idx hex_id)
              (track_sample zero_float hex_id s (tracks (arena_idx hex_id))))
  unfolding update_bucket
  update_bucket-shows hex_id s {buckets} {tracks} v = (_, rw (v (arena_idx hex_id)).1, shows)
    where
      i : ℕ
      i = arena_idx hex_id

      shows :
          ArenaShows
            (update buckets i
              (record (write_bucket zero_float hex_id s.speed s.timestamp
                (record (buckets i) { lock = true })) { lock = false }))
            (update tracks i (track_sample zero_float hex_id s (tracks i)))
      shows =
          update-related (λ b t. Shows zero_float b t × (b.lock ≡ false)) buckets tracks i
            (released hex_id s (v i).0, refl) v

  module _ {Double : Type 0} (h3 : H3 Double) where
    -- What an update means: nothing if H3 refuses the coordinates, else one more sample on the
    -- track of the bucket of its cell.
    unfoldable pub track_update : Update Float Double → Tracks Float → Tracks Float
    track_update u tracks =
        let (error, hex_id) = cell_of h3 u.lat u.lon in
        if error == 0
        then update tracks (arena_idx hex_id)
            (track_sample zero_float hex_id u.sample (tracks (arena_idx hex_id)))
        else tracks

    unfoldable pub accepted : Update Float Double → Bool
    accepted u = (cell_of h3 u.lat u.lon).0 == 0

    pub update_arena-shows :
        (u : Update Float Double) {buckets : Buckets Float} {tracks : Tracks Float}
        → ArenaShows buckets tracks
        → (buckets' : Buckets Float) × (update_arena zero_float h3 u.lat u.lon u.sample.speed
              u.sample.timestamp buckets
            ≡ some (accepted u, buckets'))
          × ArenaShows buckets' (track_update u tracks)
    unfolding update_arena track_update accepted
    update_arena-shows u {buckets} v = elim (Bool-cases ((cell_of h3 u.lat u.lon).0 == 0)) [
      | inl ok ↦
          let (b', e, w) = update_bucket-shows (cell_of h3 u.lat u.lon).1 u.sample v in
          (b', rw (ok, e), rw ok w)
      | inr bad ↦ (buckets, rw bad, rw bad v)
    ]

    -- The calls of `update` one after the other, with what each returns.
    unfoldable pub run :
        List (Update Float Double) → Buckets Float → Option (List Bool × Buckets Float)
    run [] buckets = some ([], buckets)
    run (u ∷ us) buckets = do
      (r, buckets') ←
          update_arena zero_float h3 u.lat u.lon u.sample.speed u.sample.timestamp buckets
      (rs, buckets'') ← run us buckets'
      some (r ∷ rs, buckets'')

    -- The tracks after a sequence of updates, and which of them H3 accepts.
    unfoldable pub tracks_after : List (Update Float Double) → Tracks Float → Tracks Float
    tracks_after [] tracks = tracks
    tracks_after (u ∷ us) tracks = tracks_after us (track_update u tracks)

    run-shows :
        (us : List (Update Float Double)) {buckets : Buckets Float} {tracks : Tracks Float}
        → ArenaShows buckets tracks
        → (buckets' : Buckets Float) × (run us buckets ≡ some (map accepted us, buckets'))
          × ArenaShows buckets' (tracks_after us tracks)
    unfolding run tracks_after
    run-shows [] {buckets} v = (buckets, refl, v)
    run-shows (u ∷ us) v =
        let (b', e, w) = update_arena-shows u v in
        let (b'', e', w') = run-shows us w in (b'', rw (e, ◌>>=◌, e'), w')

    -- Every sequence of updates of a new arena returns, each with true exactly if H3 gave a cell;
    -- then all locks are free, and every bucket shows the last 60 samples of its track: those of
    -- its latest cell, newest first, since another cell last used the bucket.
    pub updates_refine :
        (us : List (Update Float Double))
        → (buckets : Buckets Float) × (run us (spatial_arena zero_float)
            ≡ some (map accepted us, buckets))
          × ArenaShows buckets (tracks_after us no_tracks)
    updates_refine us = run-shows us spatial_arena-shows

-- Every cell has a bucket.
pub arena_idx-lt : (hex_id : ℕ) → arena_idx hex_id < bucket_count
arena_idx-lt hex_id = omega arith
