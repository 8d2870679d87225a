-- ===== src/Storage/Threads/Accesses.antt =====
-- What the steps of a call do to the bucket that it works on.
use telemetrix_db.Base.{ℕ, ◌≡◌, ◌≢◌, refl, sym, true, false, subst, update}
use telemetrix_db.Storage.{HexBucket, arena_idx, write_bucket}
use telemetrix_db.Storage.Arena.{Update}
use telemetrix_db.Storage.Threads.{Stage, Place, Access, spin, acquire}
use telemetrix_db.Storage.Threads.Partial.{Covers, Done, Access-Done}
use telemetrix_db.Storage.Threads.Held.{
  DoneAt, Held, Held-elsewhere, Held-acquire, Held-access, Held-clear,
}

module _ {Float Double : Type 0} (zero_float : Float) where
  -- The bucket after the return of a call.
  abbrev pub written : Update Float Double → ℕ → HexBucket Float → HexBucket Float
  written u hex_id b =
      record (write_bucket zero_float hex_id u.sample.speed u.sample.timestamp
        (record b { lock = true })) { lock = false }

  pub away :
      (u : Update Float Double) (hex_id : ℕ) (st : Stage) {k : ℕ}
      → arena_idx hex_id ≢ k
      → Covers (Place.updating u hex_id st) k
      → ⊥
  away u hex_id Stage.testing ne c = c
  away u hex_id st ne c = ne c

  pub goes_away :
      (u : Update Float Double) {hex_id : ℕ} (pc : ℕ → Place Float Double) (i : ℕ) {st : Stage}
      {k : ℕ}
      → pc i ≡ Place.updating u hex_id st
      → arena_idx hex_id ≢ k
      → Covers (pc i) k
      → ⊥
  goes_away u {hex_id} pc i {st} {k} at ne c = away u hex_id st ne (subst (λ p. Covers p k) at c)

  -- The bucket of an access, of a call that has the lock, or that is to get it.
  goes_on :
      (u : Update Float Double) {hex_id : ℕ} (pc : ℕ → Place Float Double) (i : ℕ) {st st' : Stage}
      {b b' b0 : HexBucket Float}
      → pc i ≡ Place.updating u hex_id st
      → Covers (Place.updating u hex_id st) (arena_idx hex_id)
      → Covers (Place.updating u hex_id st') (arena_idx hex_id)
      → Access zero_float hex_id u.sample b st b' st'
      → Held zero_float b b0 pc (arena_idx hex_id)
      → Held zero_float b' b0 (update pc i (Place.updating u hex_id st')) (arena_idx hex_id)
  goes_on u {hex_id} pc i {st} {st'} {b} {b0} at c c' a h =
      Held-access zero_float pc (arena_idx hex_id) i (Place.updating u hex_id st')
        (subst (λ p. Covers p (arena_idx hex_id)) (sym at) c) c'
        (λ d. Access-Done zero_float a (subst (λ p. DoneAt zero_float p b b0) at d)) h

  pub access-Held :
      (u : Update Float Double) {hex_id : ℕ} (pc : ℕ → Place Float Double) (i : ℕ) {st st' : Stage}
      {b b' b0 : HexBucket Float}
      → pc i ≡ Place.updating u hex_id st
      → Access zero_float hex_id u.sample b st b' st'
      → Held zero_float b b0 pc (arena_idx hex_id)
      → Held zero_float b' b0 (update pc i (Place.updating u hex_id st')) (arena_idx hex_id)
  access-Held u {hex_id} pc i at (spin taken) h =
      Held-elsewhere zero_float pc (arena_idx hex_id) i (Place.updating u hex_id Stage.testing)
        (λ c. subst (λ p. Covers p (arena_idx hex_id)) at c) (λ c. c) h
  access-Held u {hex_id} pc i at (acquire open_lock) h =
      Held-acquire zero_float pc (arena_idx hex_id) i (Place.updating u hex_id Stage.resetting)
        open_lock refl (λ e. record { same = rw e refl; fits = tt }) h
  access-Held u pc i at a h = goes_on u pc i at refl refl a h

  pub clear-Held :
      (u : Update Float Double) {hex_id : ℕ} {pc : ℕ → Place Float Double} (i : ℕ)
      {b b0 : HexBucket Float}
      → pc i ≡ Place.updating u hex_id Stage.clearing
      → Held zero_float b b0 pc (arena_idx hex_id)
      → Held zero_float
          (record b { lock = false })
          (written u hex_id b0)
          (update pc i Place.outside)
          (arena_idx hex_id)
  unfolding write_bucket
  clear-Held u {hex_id} {pc} i {b} {b0} at h =
      Held-clear zero_float pc (arena_idx hex_id) i Place.outside
        (subst (λ p. Covers p (arena_idx hex_id)) (sym at) refl) (λ c. c)
        (λ d.
          let w : Done zero_float hex_id u.sample Stage.clearing b b0 =
            subst (λ p. DoneAt zero_float p b b0) at d in
          rw w.same refl)
        h
