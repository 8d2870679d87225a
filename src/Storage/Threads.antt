-- ===== src/Storage/Threads.antt =====
-- src/storage/storage.cpp as threads run it: `SpatialArena::update` split at its accesses of the
-- bucket, any number of threads interleaved in any order. The flag of a bucket is its spinlock:
-- `test_and_set` tests and sets it in one step, and acquire and release order what stands between.
pub mod Partial
pub mod Held
pub mod Accesses
pub mod Serial
pub mod Return
use telemetrix_db.Base.{
  ℕ, ◌+◌, ◌%◌, ◌^◌, ◌≡◌, Bool, true, false, List, [], ◌∷◌, ◌++◌, ◌==◌, set, update,
}
use telemetrix_db.Storage.{
  TimeWindow, HexBucket, H3, Buckets, spatial_arena, arena_idx, window_for, cell_of,
}
use telemetrix_db.Storage.Window.{Sample}
use telemetrix_db.Storage.Arena.{Update}

-- Where a call of `update` stands, with its local `head` once it has one.
pub data Stage : Type 0 where
  testing : Stage  -- at the `while` on `test_and_set`
  resetting : Stage  -- with the lock, at the test of `h3_index`
  tagging : Stage  -- before the write of `h3_index`
  loading : Stage  -- before the read of `window.head`
  speeding : ℕ → Stage  -- before the write of the speed
  stamping : ℕ → Stage  -- before that of the timestamp
  advancing : ℕ → Stage  -- before that of `window.head`
  clearing : Stage  -- before `lock.clear`

-- A thread is outside of `update`, or in it with its arguments and its `hex_id`.
pub data Place (Float Double : Type 0) : Type 0 where
  outside : Place Float Double
  updating : Update Float Double → ℕ → Stage → Place Float Double

-- `order` is the history: the calls that have returned.
pub record Scene (Float Double : Type 0) : Type 0 where
  pub buckets : Buckets Float
  pub pc : ℕ → Place Float Double
  pub order : List (Update Float Double)

module _ {Float : Type 0} (zero_float : Float) where
  -- A step of a call on its bucket.
  pub data Access (hex_id : ℕ) (s : Sample Float) (b : HexBucket Float)
      : Stage → HexBucket Float → Stage → Type 0 where
    spin : b.lock ≡ true → Access hex_id s b testing b testing
    acquire : b.lock ≡ false → Access hex_id s b testing (record b { lock = true }) resetting
    reset :
        Access hex_id s b resetting (record b { window = window_for zero_float hex_id b }) tagging
    tag : Access hex_id s b tagging (record b { h3_index = hex_id }) loading
    load : Access hex_id s b loading b (speeding b.window.head)
    store_speed :
        {head : ℕ}
        → Access hex_id s b
            (speeding head)
            (record b { window = record b.window { speeds = set b.window.speeds head s.speed } })
            (stamping head)
    store_timestamp :
        {head : ℕ}
        → Access hex_id s b
            (stamping head)
            (record b {
              window = record b.window {
                timestamps = set b.window.timestamps head (s.timestamp % 2 ^ 32);
              };
            })
            (advancing head)
    advance :
        {head : ℕ}
        → Access hex_id s b
            (advancing head)
            (record b { window = record b.window { head = (head + 1) % 60 } })
            clearing

  module _ {Double : Type 0} (h3 : H3 Double) where
    -- One step of thread `i`: a call that H3 refuses, a call up to the lock, an access, the return.
    pub data Turn (s : Scene Float Double) : Scene Float Double → Type 0 where
      refuse :
          (i : ℕ) (u : Update Float Double)
          → s.pc i ≡ outside
          → ((cell_of h3 u.lat u.lon).0 == 0) ≡ false
          → Turn s (record s { order = s.order ++ (u ∷ []) })
      begin :
          (i : ℕ) (u : Update Float Double) {hex_id : ℕ}
          → s.pc i ≡ outside
          → cell_of h3 u.lat u.lon ≡ (0, hex_id)
          → Turn s (record s { pc = update s.pc i (updating u hex_id testing) })
      access :
          (i : ℕ) {u : Update Float Double} {hex_id : ℕ} {st st' : Stage} {b : HexBucket Float}
          → s.pc i ≡ updating u hex_id st
          → Access hex_id u.sample (s.buckets (arena_idx hex_id)) st b st'
          → Turn s (record s {
            buckets = update s.buckets (arena_idx hex_id) b;
            pc = update s.pc i (updating u hex_id st');
          })
      clear :
          (i : ℕ) {u : Update Float Double} {hex_id : ℕ}
          → s.pc i ≡ updating u hex_id clearing
          → Turn s (record {
            buckets =
                update s.buckets
                  (arena_idx hex_id)
                  (record (s.buckets (arena_idx hex_id)) { lock = false });
            pc = update s.pc i outside;
            order = s.order ++ (u ∷ []);
          })

    -- The arena as its constructor leaves it, no thread in `update`.
    abbrev pub built : Scene Float Double
    built = record { buckets = spatial_arena zero_float; pc = λ _. outside; order = [] }

    pub data Turns : Scene Float Double → Type 0 where
      opened : Turns built
      turn : {s t : Scene Float Double} → Turns s → Turn s t → Turns t
