-- ===== src/Storage/Threads/Partial.antt =====
-- What a bucket holds while a call of `update` is at work on it.
use telemetrix_db.Base.{ℕ, ◌%◌, ◌^◌, ◌≡◌, refl, ap, true, set}
use telemetrix_db.Storage.{HexBucket, arena_idx, window_for, write_sample}
use telemetrix_db.Storage.Window.{Sample}
use telemetrix_db.Storage.Threads.{Stage, Place, Access}

module _ {Float Double : Type 0} where
  -- The call has the lock of bucket `k`.
  abbrev pub Covers : Place Float Double → ℕ → Type 0
  Covers Place.outside k = ⊥
  Covers (Place.updating u hex_id Stage.testing) k = ⊥
  Covers (Place.updating u hex_id st) k = arena_idx hex_id ≡ k

module _ {Float : Type 0} (zero_float : Float) where
  -- The part of an update that is done at this stage, on a bucket as it was before.
  abbrev pub part : ℕ → Sample Float → Stage → HexBucket Float → HexBucket Float
  part hex_id s Stage.testing b = b
  part hex_id s Stage.resetting b = record b { lock = true }
  part hex_id s Stage.tagging b = record b { window = window_for zero_float hex_id b; lock = true }
  part hex_id s Stage.loading b = record {
    h3_index = hex_id;
    window = window_for zero_float hex_id b;
    lock = true;
  }
  part hex_id s (Stage.speeding head) b = record {
    h3_index = hex_id;
    window = window_for zero_float hex_id b;
    lock = true;
  }
  part hex_id s (Stage.stamping head) b =
      let w = window_for zero_float hex_id b in
      record {
        h3_index = hex_id;
        window = record w { speeds = set w.speeds w.head s.speed };
        lock = true;
      }
  part hex_id s (Stage.advancing head) b =
      let w = window_for zero_float hex_id b in
      record {
        h3_index = hex_id;
        window = record w {
          speeds = set w.speeds w.head s.speed;
          timestamps = set w.timestamps w.head (s.timestamp % 2 ^ 32);
        };
        lock = true;
      }
  part hex_id s Stage.clearing b = record {
    h3_index = hex_id;
    window = write_sample s.speed s.timestamp (window_for zero_float hex_id b);
    lock = true;
  }

  -- The local `head` is the one of the window.
  abbrev pub HeadFits : ℕ → Stage → HexBucket Float → Type 0
  HeadFits hex_id (Stage.speeding head) b = head ≡ (window_for zero_float hex_id b).head
  HeadFits hex_id (Stage.stamping head) b = head ≡ (window_for zero_float hex_id b).head
  HeadFits hex_id (Stage.advancing head) b = head ≡ (window_for zero_float hex_id b).head
  HeadFits hex_id st b = Unit

  -- A bucket at this stage, `b0` being what it was when the call got the lock.
  pub record Done (hex_id : ℕ) (s : Sample Float) (st : Stage) (b b0 : HexBucket Float)
      : Type 0 where
    pub same : b ≡ part hex_id s st b0
    pub fits : HeadFits hex_id st b0

  pub Access-Done :
      {hex_id : ℕ} {s : Sample Float} {b b' b0 : HexBucket Float} {st st' : Stage}
      → Access zero_float hex_id s b st b' st'
      → Done hex_id s st b b0
      → Done hex_id s st' b' b0
  Access-Done (Access.spin taken) d = record { same = d.same; fits = tt }
  Access-Done (Access.acquire free) d = record { same = rw d.same refl; fits = tt }
  Access-Done Access.reset d = record { same = rw d.same refl; fits = tt }
  Access-Done Access.tag d = record { same = rw d.same refl; fits = tt }
  Access-Done Access.load d = record { same = d.same; fits = ap (λ b. b.window.head) d.same }
  Access-Done Access.store_speed d = record { same = rw (d.same, d.fits) refl; fits = d.fits }
  Access-Done Access.store_timestamp d = record { same = rw (d.same, d.fits) refl; fits = d.fits }
  Access-Done Access.advance d = record { same = rw (d.same, d.fits) refl; fits = tt }
