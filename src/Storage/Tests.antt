-- ===== src/Storage/Tests.antt =====
-- The arena on a few updates. Floats are numbers, and the cell of a place is its latitude.
use native.Mathlib.Nat.{mul-add-mod_self_right, mod-eq_of_lt, one-le-pow}
use telemetrix_db.Base.{
  ℕ, ◌+◌, ◌-◌, ◌*◌, ◌%◌, ◌^◌, ◌∙◌, sym, ap, arith, ◌≡◌, refl, true, false, some, List, [], ◌∷◌, map,
  ℕ_discrete, replicate, update,
}
use telemetrix_db.Storage.{HexBucket, empty_window, H3, Buckets, spatial_arena, bucket_count}
use telemetrix_db.Storage.Routing.{CellLayout, run-one_bucket}
use telemetrix_db.Storage.Threads.{
  Stage, Place, Scene, Access, Turns, opened, turn, begin, access, built,
}
use telemetrix_db.Storage.Threads.Return.{Leads, Turns-Returns}
use telemetrix_db.Storage.Threads.Serial.{Serial, Turns-Serial}
use telemetrix_db.Storage.Window.{track_sample}
use telemetrix_db.Storage.Arena.{
  Update, no_tracks, ArenaShows, accepted, track_update, tracks_after, run, updates_refine,
}

abbrev flat_earth : H3 ℕ
flat_earth = record { degs_to_rads = λ d. d; lat_lng_to_cell = λ p r. (p.lng, p.lat) }

-- Two samples of cell 5, one of a cell that shares its bucket, and one place that H3 refuses.
abbrev trip : List (Update ℕ ℕ)
trip =
    record { lat = 5; lon = 0; sample = record { speed = 10; timestamp = 100 } }
    ∷ record { lat = 5; lon = 0; sample = record { speed = 11; timestamp = 115 } }
    ∷ record { lat = 5 + bucket_count; lon = 0; sample = record { speed = 12; timestamp = 130 } }
    ∷ record { lat = 5; lon = 1; sample = record { speed = 13; timestamp = 145 } }
    ∷ []

trip-accepted : map (accepted 0 flat_earth) trip ≡ true ∷ true ∷ true ∷ false ∷ []
unfolding accepted
trip-accepted = refl

trip-track :
    (tracks_after 0 flat_earth trip no_tracks 5).samples
    ≡ record { speed = 12; timestamp = 130 } ∷ []
unfolding tracks_after track_update track_sample ℕ_discrete
trip-track = refl

updates_refine_example :
    (buckets : Buckets ℕ) × (run 0 flat_earth trip (spatial_arena 0)
      ≡ some (map (accepted 0 flat_earth) trip, buckets))
    × ArenaShows 0 buckets (tracks_after 0 flat_earth trip no_tracks)
updates_refine_example = updates_refine 0 flat_earth trip

-- Cells of any resolution, laid out as H3 does, one for each latitude.
abbrev ones : ℕ → ℕ
ones resolution = 2 ^ (3 * (15 - resolution))

abbrev tiled_earth : H3 ℕ
tiled_earth = record {
  degs_to_rads = λ d. d;
  lat_lng_to_cell = λ p r. (p.lng, p.lat * ones r + (ones r - 1));
}

tiled_earth-CellLayout : CellLayout tiled_earth
tiled_earth-CellLayout = record {
  unused_ones = λ p r cell small e.
      ap (λ (x : ℕ × ℕ). x.1 % ones r) (sym e)
      ∙ mul-add-mod_self_right p.lat (ones r) (ones r - 1)
      ∙ mod-eq_of_lt (omega (arith, one-le-pow (3 * (15 - r)) 2 (omega arith)));
}

run-one_bucket_example :
    (buckets : Buckets ℕ) × (run 0 tiled_earth trip (spatial_arena 0)
      ≡ some (map (accepted 0 tiled_earth) trip, buckets))
    × (buckets 5 ≡ record {
      h3_index = 0;
      window = record { timestamps = replicate 60 0; speeds = replicate 60 0; head = 0 };
      lock = false;
    })
run-one_bucket_example = run-one_bucket 0 tiled_earth tiled_earth-CellLayout trip 5 (omega arith)

-- Thread 0 makes an update of cell 5; thread 1 spins on the same bucket, for another cell.
abbrev first_update : Update ℕ ℕ
first_update = record { lat = 5; lon = 0; sample = record { speed = 10; timestamp = 100 } }

abbrev second_update : Update ℕ ℕ
second_update = record {
  lat = 5 + bucket_count;
  lon = 0;
  sample = record { speed = 12; timestamp = 130 };
}

-- Thread 0 goes to a stage and leaves the bucket of cell 5 so.
abbrev went : Stage → HexBucket ℕ → Scene ℕ ℕ → Scene ℕ ℕ
went st b s = record s {
  buckets = update s.buckets 5 b;
  pc = update s.pc 0 (Place.updating first_update 5 st);
}

abbrev both_called : Scene ℕ ℕ
both_called = record (built 0 flat_earth) {
  pc =
      update (update (λ _. Place.outside) 0 (Place.updating first_update 5 Stage.testing)) 1
        (Place.updating second_update (5 + bucket_count) Stage.testing);
}

abbrev locked : Scene ℕ ℕ
locked =
    went Stage.resetting (record { h3_index = 0; window = empty_window 0; lock = true }) both_called

abbrev spun : Scene ℕ ℕ
spun = record locked {
  buckets = update locked.buckets 5 (locked.buckets 5);
  pc = update locked.pc 1 (Place.updating second_update (5 + bucket_count) Stage.testing);
}

abbrev cleaned : Scene ℕ ℕ
cleaned = went Stage.tagging (record { h3_index = 0; window = empty_window 0; lock = true }) spun

abbrev tagged : Scene ℕ ℕ
tagged = went Stage.loading (record { h3_index = 5; window = empty_window 0; lock = true }) cleaned

tagged-Turns : Turns 0 flat_earth tagged
unfolding ℕ_discrete
tagged-Turns =
    turn
      (turn
        (turn
          (turn
            (turn (turn opened (begin 0 first_update refl refl)) (begin 1 second_update refl refl))
            (access 0 refl (Access.acquire refl)))
          (access 1 refl (Access.spin refl)))
        (access 0 refl Access.reset))
      (access 0 refl Access.tag)

Turns-Serial_example : Serial 0 flat_earth tagged
Turns-Serial_example = Turns-Serial 0 flat_earth tagged-Turns

Turns-Returns_example : (t : Scene ℕ ℕ) × Leads 0 flat_earth tagged t × (t.pc 1 ≡ Place.outside)
Turns-Returns_example = Turns-Returns 0 flat_earth tagged-Turns 1
