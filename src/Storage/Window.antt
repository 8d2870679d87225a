-- ===== src/Storage/Window.antt =====
-- A bucket's window is a record of its cell's last 60 samples.
use telemetrix_db.Base.{
  ℕ, zero, suc, ◌+◌, ◌-◌, ◌%◌, ◌^◌, ◌<◌, ◌≡◌, ◌≢◌, ◌∙◌, ap, refl, Bool, true, false, not, ◌&&◌,
  List, [], ◌∷◌, length, length-set, length-replicate, get_or, get_or-set_self, get_or-set_ne, set,
  ◌==◌, if◌then◌else◌, arith,
}
use telemetrix_db.Storage.{TimeWindow, HexBucket, empty_window, write_sample, write_bucket}

-- The arrays have 60 places and the head is one of them.
pub record IsWindow {Float : Type 0} (w : TimeWindow Float) : Type 0 where
  pub timestamps : length w.timestamps ≡ 60
  pub speeds : length w.speeds ≡ 60
  pub head : w.head < 60

pub record Sample (Float : Type 0) : Type 0 where
  pub speed : Float
  pub timestamp : ℕ

-- The place of the sample written `k` writes before the last.
abbrev pub place : ℕ → ℕ → ℕ
place head k = (head + 59 - k) % 60

-- A bucket's content as its clients mean it: the cell that it belongs to, 0 for none, and all
-- samples since it was taken over, newest first.
pub record Track (Float : Type 0) : Type 0 where
  pub cell : ℕ
  pub samples : List (Sample Float)

module _ {Float : Type 0} (zero_float : Float) where
  abbrev pub blank : Sample Float
  blank = record { speed = zero_float; timestamp = 0 }

  -- A window shows the newest 60 of a list of samples, newest first: the `k`-th newest stands `k`
  -- places behind the last write, its timestamp cut to 32 bits.
  pub record WindowShows (w : TimeWindow Float) (samples : List (Sample Float)) : Type 0 where
    pub sizes : IsWindow w
    pub speeds :
        (k : ℕ)
        → k < 60
        → k < length samples
        → get_or w.speeds (place w.head k) zero_float ≡ (get_or samples k blank).speed
    pub timestamps :
        (k : ℕ)
        → k < 60
        → k < length samples
        → get_or w.timestamps (place w.head k) 0 ≡ (get_or samples k blank).timestamp % 2 ^ 32

  pub record Shows (b : HexBucket Float) (t : Track Float) : Type 0 where
    pub cell : b.h3_index ≡ t.cell
    pub window : WindowShows b.window t.samples

  -- A new sample: a cell that finds another cell's samples in its bucket drops them.
  unfoldable pub track_sample : ℕ → Sample Float → Track Float → Track Float
  track_sample hex_id s t = record {
    cell = hex_id;
    samples = if not (t.cell == 0) && not (t.cell == hex_id) then s ∷ [] else s ∷ t.samples;
  }

  write_sample-IsWindow :
      (speed : Float) (timestamp : ℕ) {w : TimeWindow Float}
      → IsWindow w
      → IsWindow (write_sample speed timestamp w)
  write_sample-IsWindow speed timestamp {w} v = record {
    timestamps = length-set w.timestamps w.head (timestamp % 2 ^ 32) ∙ v.timestamps;
    speeds = length-set w.speeds w.head speed ∙ v.speeds;
    head = omega arith;
  }

  -- Behind the write, the places of the older samples are the same, and none is the written one.
  place-suc :
      (h k : ℕ) → h < 60 → suc k < 60 → (place ((h + 1) % 60) (suc k) ≡ place h k) × (h ≢ place h k)
  place-suc h k hh hk = omega arith

  place-zero : (h : ℕ) → h < 60 → place ((h + 1) % 60) 0 ≡ h
  place-zero h hh = omega arith

  module _ {A : Type 0} (xs : List A) (h : ℕ) (x d : A) (hh : h < 60) (len : length xs ≡ 60) where
    newest : get_or (set xs h x) (place ((h + 1) % 60) 0) d ≡ x
    newest =
        ap (λ i. get_or (set xs h x) i d) (place-zero h hh) ∙ get_or-set_self xs h x d (omega arith)

    older :
        (k : ℕ)
        → suc k < 60
        → get_or (set xs h x) (place ((h + 1) % 60) (suc k)) d ≡ get_or xs (place h k) d
    older k hk =
        let (same, other) = place-suc h k hh hk in
        ap (λ i. get_or (set xs h x) i d) same ∙ get_or-set_ne xs x d other

module _ {Float : Type 0} (zero_float : Float) where
  pub empty_window-shows : WindowShows zero_float (empty_window zero_float) []
  empty_window-shows = record {
    sizes = record {
      timestamps = length-replicate {A = ℕ} 60 0;
      speeds = length-replicate 60 zero_float;
      head = omega arith;
    };
    speeds = λ k hk h. elim h [ ];
    timestamps = λ k hk h. elim h [ ];
  }

  -- A write shows the new sample, and the older ones one place further back.
  write_sample-shows :
      (s : Sample Float) {w : TimeWindow Float} {samples : List (Sample Float)}
      → WindowShows zero_float w samples
      → WindowShows zero_float (write_sample s.speed s.timestamp w) (s ∷ samples)
  write_sample-shows s {w} {samples} v = record {
    sizes = write_sample-IsWindow zero_float s.speed s.timestamp v.sizes;
    speeds = speeds;
    timestamps = timestamps;
  }
    where
      h : w.head < 60
      h = v.sizes.head

      speeds :
          (k : ℕ)
          → k < 60
          → k < length (s ∷ samples)
          → get_or (set w.speeds w.head s.speed) (place ((w.head + 1) % 60) k) zero_float
            ≡ (get_or (s ∷ samples) k (blank zero_float)).speed
      speeds zero hk hl = newest zero_float w.speeds w.head s.speed zero_float h v.sizes.speeds
      speeds (suc k) hk hl =
          older zero_float w.speeds w.head s.speed zero_float h v.sizes.speeds k hk
          ∙ v.speeds k (omega arith) (omega arith)

      timestamps :
          (k : ℕ)
          → k < 60
          → k < length (s ∷ samples)
          → get_or (set w.timestamps w.head (s.timestamp % 2 ^ 32)) (place ((w.head + 1) % 60) k) 0
            ≡ (get_or (s ∷ samples) k (blank zero_float)).timestamp % 2 ^ 32
      timestamps zero hk hl =
          newest zero_float w.timestamps w.head (s.timestamp % 2 ^ 32) 0 h v.sizes.timestamps
      timestamps (suc k) hk hl =
          older zero_float w.timestamps w.head (s.timestamp % 2 ^ 32) 0 h v.sizes.timestamps k hk
          ∙ v.timestamps k (omega arith) (omega arith)

  -- The locked part of an update keeps the bucket and its track together.
  pub write_bucket-Shows :
      (hex_id : ℕ) (s : Sample Float) {b : HexBucket Float} {t : Track Float}
      → Shows zero_float b t
      → Shows zero_float
          (write_bucket zero_float hex_id s.speed s.timestamp b)
          (track_sample zero_float hex_id s t)
  unfolding write_bucket track_sample
  write_bucket-Shows hex_id s {b} {t} v = record {
    cell = refl;
    window = rw (ap (λ c. not (c == 0) && not (c == hex_id)) v.cell) (go _);
  }
    where
      go :
          (foreign : Bool)
          → WindowShows zero_float
              (write_sample s.speed s.timestamp
                (if foreign then empty_window zero_float else b.window))
              (if foreign then s ∷ [] else s ∷ t.samples)
      go true = write_sample-shows s empty_window-shows
      go false = write_sample-shows s v.window
