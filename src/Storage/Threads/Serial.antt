-- ===== src/Storage/Threads/Serial.antt =====
-- Threads that update one arena together leave what the same calls leave one after the other.
use telemetrix_db.Base.{
  ℕ, ◌≡◌, ◌≢◌, refl, false, Option, some, map, subst, ◌==◌, update, update-each, update-both,
}
use telemetrix_db.Storage.{
  H3, Buckets, spatial_arena, arena_idx, update_bucket, cell_of, update_arena,
}
use telemetrix_db.Storage.Arena.{
  Update, ArenaShows, no_tracks, accepted, run, tracks_after, updates_refine,
}
use telemetrix_db.Storage.Order.{run-snoc}
use telemetrix_db.Storage.Threads.{
  Stage, Place, Scene, Turn, refuse, begin, access, clear, Turns, opened, turn,
}
use telemetrix_db.Storage.Threads.Partial.{Covers}
use telemetrix_db.Storage.Threads.Held.{Held, at_rest, Held-elsewhere}
use telemetrix_db.Storage.Threads.Accesses.{written, away, goes_away, access-Held, clear-Held}

ran_once :
    {A B : Type 0} {o : Option (A × B)} {x y : A} {b c : B}
    → o ≡ some (x, b)
    → o ≡ some (y, c)
    → b ≡ c
ran_once e f = cc

module _ {Float Double : Type 0} (zero_float : Float) (h3 : H3 Double) where
  -- A call works on the cell that H3 gave.
  abbrev Known : Place Float Double → Type 0
  Known Place.outside = Unit
  Known (Place.updating u hex_id st) = cell_of h3 u.lat u.lon ≡ (0, hex_id)

  -- `base` is the arena after the calls that have returned, in this order.
  record Inv (s : Scene Float Double) : Type 0 where
    base : Buckets Float
    in_order :
        run zero_float h3 s.order (spatial_arena zero_float)
        ≡ some (map (accepted zero_float h3) s.order, base)
    unlocked : (k : ℕ) → (base k).lock ≡ false
    held : (k : ℕ) → Held zero_float (s.buckets k) (base k) s.pc k
    known : (j : ℕ) → Known (s.pc j)

  refused-update :
      (u : Update Float Double) (b : Buckets Float)
      → ((cell_of h3 u.lat u.lon).0 == 0) ≡ false
      → update_arena zero_float h3 u.lat u.lon u.sample.speed u.sample.timestamp b
        ≡ some (accepted zero_float h3 u, b)
  unfolding update_arena accepted
  refused-update u b bad = rw bad refl

  accepted-update :
      (u : Update Float Double) (b : Buckets Float) {hex_id : ℕ}
      → cell_of h3 u.lat u.lon ≡ (0, hex_id)
      → (b (arena_idx hex_id)).lock ≡ false
      → update_arena zero_float h3 u.lat u.lon u.sample.speed u.sample.timestamp b
        ≡ some (
          accepted zero_float h3 u,
          update b (arena_idx hex_id) (written zero_float u hex_id (b (arena_idx hex_id))),
        )
  unfolding update_arena update_bucket accepted
  accepted-update u b found open_lock = rw (found, open_lock) refl

  -- The other buckets, and those of a call that has no lock.
  elsewhere :
      {s : Scene Float Double} (inv : Inv s) (u : Update Float Double) {hex_id : ℕ} (i : ℕ)
      {st : Stage} (p' : Place Float Double)
      → s.pc i ≡ Place.updating u hex_id st
      → ((k : ℕ) → arena_idx hex_id ≢ k → Covers p' k → ⊥)
      → (k : ℕ) → arena_idx hex_id ≢ k
      → Held zero_float (s.buckets k) (inv.base k) (update s.pc i p') k
  elsewhere {s} inv u i p' at none_left k ne =
      Held-elsewhere zero_float s.pc k i p' (goes_away zero_float u s.pc i at ne) (none_left k ne)
        (inv.held k)

  Turn-Inv : {s t : Scene Float Double} → Turn zero_float h3 s t → Inv s → Inv t
  Turn-Inv {s} (refuse i u at bad) inv = record {
    base = inv.base;
    in_order =
        run-snoc zero_float h3 s.order u (spatial_arena zero_float) inv.in_order
          (refused-update u inv.base bad);
    unlocked = inv.unlocked;
    held = inv.held;
    known = inv.known;
  }
  Turn-Inv {s} (begin i u {hex_id} at found) inv = record {
    base = inv.base;
    in_order = inv.in_order;
    unlocked = inv.unlocked;
    held = λ k.
        Held-elsewhere zero_float s.pc k i (Place.updating u hex_id Stage.testing)
          (λ c. subst (λ p. Covers p k) at c) (λ c. c) (inv.held k);
    known = update-each (λ j p. Known p) s.pc i found (λ j ne. inv.known j);
  }
  Turn-Inv {s} (access i {u} {hex_id} {st'} at a) inv = record {
    base = inv.base;
    in_order = inv.in_order;
    unlocked = inv.unlocked;
    held =
        update-each
          (λ k b. Held zero_float b (inv.base k) (update s.pc i (Place.updating u hex_id st')) k)
          s.buckets (arena_idx hex_id)
          (access-Held zero_float u s.pc i at a (inv.held (arena_idx hex_id)))
          (elsewhere inv u i (Place.updating u hex_id st') at (λ k. away zero_float u hex_id st'));
    known =
        update-each (λ j p. Known p) s.pc i (subst Known at (inv.known i)) (λ j ne. inv.known j);
  }
  Turn-Inv {s} (clear i {u} {hex_id} at) inv = record {
    base = update inv.base k0 (written zero_float u hex_id (inv.base k0));
    in_order =
        run-snoc zero_float h3 s.order u (spatial_arena zero_float) inv.in_order
          (accepted-update u inv.base (subst Known at (inv.known i)) (inv.unlocked k0));
    unlocked = update-each (λ k b. b.lock ≡ false) inv.base k0 refl (λ k ne. inv.unlocked k);
    held =
        update-both (λ k b b0. Held zero_float b b0 (update s.pc i Place.outside) k) s.buckets
          inv.base k0 (clear-Held zero_float u i at (inv.held k0))
          (elsewhere inv u i Place.outside at (λ k ne c. c));
    known = update-each (λ j p. Known p) s.pc i tt (λ j ne. inv.known j);
  }
    where
      k0 : ℕ
      k0 = arena_idx hex_id

  Turns-Inv : {s : Scene Float Double} → Turns zero_float h3 s → Inv s
  unfolding run
  Turns-Inv opened = record {
    base = spatial_arena zero_float;
    in_order = refl;
    unlocked = λ k. refl;
    held = λ k. at_rest refl (λ j c. c);
    known = λ j. tt;
  }
  Turns-Inv (turn r t) = Turn-Inv t (Turns-Inv r)

  -- The arena of this state, against the one after the returned calls, made one after the other.
  pub record Serial (s : Scene Float Double) : Type 0 where
    pub buckets : Buckets Float
    pub in_order :
        run zero_float h3 s.order (spatial_arena zero_float)
        ≡ some (map (accepted zero_float h3) s.order, buckets)
    pub shown : ArenaShows zero_float buckets (tracks_after zero_float h3 s.order no_tracks)
    pub held : (k : ℕ) → Held zero_float (s.buckets k) (buckets k) s.pc k

  -- However the threads that call `update` on one new arena are interleaved, they act as if one after
  -- the other, in the order in which they return: a bucket that no thread has locked is as these calls
  -- in this order leave it, and shows the last 60 samples of its cell; any other is in the hands of
  -- one thread only, which has the lock, and differs by the part of its update that is done.
  pub Turns-Serial : {s : Scene Float Double} → Turns zero_float h3 s → Serial s
  Turns-Serial {s} r =
      let inv = Turns-Inv r in
      let (buckets, e, shown) = updates_refine zero_float h3 s.order in
      let same : buckets ≡ inv.base = ran_once e inv.in_order in
      record {
        buckets = inv.base;
        in_order = inv.in_order;
        shown =
            subst (λ b. ArenaShows zero_float b (tracks_after zero_float h3 s.order no_tracks)) same
              shown;
        held = inv.held;
      }
