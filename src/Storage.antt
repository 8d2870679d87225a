-- ===== src/Storage.antt =====
-- include/arena.h, include/storage.hpp and src/storage/storage.cpp: the arena of buckets, each with
-- a rolling window of the last 60 speeds and timestamps of one H3 cell.
pub mod Window
pub mod Arena
pub mod Order
pub mod Routing
pub mod Threads
mod Tests
use telemetrix_db.Base.{
  ℕ, ◌+◌, ◌-◌, ◌%◌, ◌^◌, Bool, true, false, not, ◌&&◌, Option, none, some, List, ◌>>=◌, ◌==◌,
  if◌then◌else◌, set, replicate, update,
}

-- `TimeWindow` without its padding. The counts are those of the arrays.
pub record TimeWindow (Float : Type 0) : Type 0 where
  pub timestamps : List ℕ
  pub speeds : List Float
  pub head : ℕ

pub record HexBucket (Float : Type 0) : Type 0 where
  pub h3_index : ℕ
  pub window : TimeWindow Float
  pub lock : Bool

abbrev pub bucket_count : ℕ
bucket_count = 131072

abbrev pub h3_resolution : ℕ
h3_resolution = 9

pub record LatLng (Double : Type 0) : Type 0 where
  pub lat : Double
  pub lng : Double

-- The H3 library: the conversion to radians, and `latLngToCell` at a resolution, with its error
-- code and the cell that it stores.
pub record H3 (Double : Type 0) : Type 0 where
  pub degs_to_rads : Double → Double
  pub lat_lng_to_cell : LatLng Double → ℕ → ℕ × ℕ

module _ {Double : Type 0} (h3 : H3 Double) where
  -- `latLngToCell` on the coordinates in radians.
  abbrev pub cell_of : Double → Double → ℕ × ℕ
  cell_of lat lon =
      h3.lat_lng_to_cell (record { lat = h3.degs_to_rads lat; lng = h3.degs_to_rads lon })
        h3_resolution

-- The array of `bucket_count` buckets, by index.
abbrev pub Buckets : Type 0 → Type 0
Buckets Float = ℕ → HexBucket Float

-- `hex_id & (BUCKET_COUNT - 1)`; the count is 2 ^ 17.
abbrev pub arena_idx : ℕ → ℕ
arena_idx hex_id = hex_id % bucket_count

module _ {Float : Type 0} where
  -- One sample into a window. A write out of range changes nothing here; `Window` rules it out.
  abbrev pub write_sample : Float → ℕ → TimeWindow Float → TimeWindow Float
  write_sample speed timestamp w = record {
    speeds = set w.speeds w.head speed;
    timestamps = set w.timestamps w.head (timestamp % 2 ^ 32);
    head = (w.head + 1) % 60;
  }

module _ {Float : Type 0} (zero_float : Float) where
  -- `TimeWindow{}`
  abbrev pub empty_window : TimeWindow Float
  empty_window = record { timestamps = replicate 60 0; speeds = replicate 60 zero_float; head = 0 }

  -- The constructor of `SpatialArena`: every bucket as its member initialisers leave it.
  abbrev pub spatial_arena : Buckets Float
  spatial_arena i = record { h3_index = 0; window = empty_window; lock = false }

  -- The window that a sample for `hex_id` goes to: emptied if the bucket belongs to another cell.
  abbrev pub window_for : ℕ → HexBucket Float → TimeWindow Float
  window_for hex_id bucket =
      if not (bucket.h3_index == 0) && not (bucket.h3_index == hex_id)
      then empty_window
      else bucket.window

  -- What `update` does between the acquisition of the bucket's lock and its release.
  unfoldable pub write_bucket : ℕ → Float → ℕ → HexBucket Float → HexBucket Float
  write_bucket hex_id speed timestamp bucket = record bucket {
    h3_index = hex_id;
    window = write_sample speed timestamp (window_for hex_id bucket);
  }

  -- The locked part of `update`, on the bucket of the cell: `test_and_set` until the flag was
  -- clear, the write, `clear`. `none` is the spin on a flag that nobody clears.
  unfoldable pub update_bucket : ℕ → Float → ℕ → Buckets Float → Option (Buckets Float)
  unfolding write_bucket
  update_bucket hex_id speed timestamp buckets =
      let i = arena_idx hex_id in
      let b = buckets i in
      if b.lock
      then none
      else some (
          update buckets i
            (record (write_bucket hex_id speed timestamp (record b { lock = true })) {
              lock = false;
            }))

  module _ {Double : Type 0} (h3 : H3 Double) where
    -- `SpatialArena::update`: its result, and the buckets after it.
    pub update_arena : Double → Double → Float → ℕ → Buckets Float → Option (Bool × Buckets Float)
    unfolding update_bucket
    update_arena lat lon speed timestamp buckets =
        let (error, hex_id) = cell_of h3 lat lon in
        if not (error == 0)
        then some (false, buckets)
        else do buckets' ← update_bucket hex_id speed timestamp buckets; some (true, buckets')
