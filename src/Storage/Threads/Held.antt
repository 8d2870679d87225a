-- ===== src/Storage/Threads/Held.antt =====
-- A bucket between the calls of `update`: at rest, or in the hands of one thread.
use telemetrix_db.Base.{
  ℕ, ◌≡◌, ◌≢◌, refl, sym, ap, ◌∙◌, true, false, subst, update, update-each, update-same,
  update-other,
}
use telemetrix_db.Storage.{HexBucket}
use telemetrix_db.Storage.Threads.{Stage, Place}
use telemetrix_db.Storage.Threads.Partial.{Covers, Done}

module _ {Float Double : Type 0} (zero_float : Float) where
  abbrev pub DoneAt : Place Float Double → HexBucket Float → HexBucket Float → Type 0
  DoneAt Place.outside b b0 = Unit
  DoneAt (Place.updating u hex_id st) b b0 = Done zero_float hex_id u.sample st b b0

  pub DoneAt-locked :
      (p : Place Float Double) (k : ℕ) (b b0 : HexBucket Float)
      → Covers p k
      → DoneAt p b b0
      → b.lock ≡ true
  DoneAt-locked Place.outside k b b0 c d = absurd c
  DoneAt-locked (Place.updating u hex_id Stage.testing) k b b0 c d = absurd c
  DoneAt-locked (Place.updating u hex_id Stage.resetting) k b b0 c d = ap (λ b. b.lock) d.same
  DoneAt-locked (Place.updating u hex_id Stage.tagging) k b b0 c d = ap (λ b. b.lock) d.same
  DoneAt-locked (Place.updating u hex_id Stage.loading) k b b0 c d = ap (λ b. b.lock) d.same
  DoneAt-locked (Place.updating u hex_id (Stage.speeding head)) k b b0 c d = ap (λ b. b.lock) d.same
  DoneAt-locked (Place.updating u hex_id (Stage.stamping head)) k b b0 c d = ap (λ b. b.lock) d.same
  DoneAt-locked (Place.updating u hex_id (Stage.advancing head)) k b b0 c d =
      ap (λ b. b.lock) d.same
  DoneAt-locked (Place.updating u hex_id Stage.clearing) k b b0 c d = ap (λ b. b.lock) d.same

  -- Bucket `k` is now `b`; the calls that have returned left it as `b0`.
  pub data Held (b b0 : HexBucket Float) (pc : ℕ → Place Float Double) (k : ℕ) : Type 0 where
    at_rest : b ≡ b0 → ((j : ℕ) → Covers (pc j) k → ⊥) → Held b b0 pc k
    taken :
        (i : ℕ)
        → Covers (pc i) k
        → DoneAt (pc i) b b0
        → ((j : ℕ) → Covers (pc j) k → j ≡ i)
        → Held b b0 pc k

  module _ (pc : ℕ → Place Float Double) (k : ℕ) (i : ℕ) (p' : Place Float Double) where
    -- Thread `i` does something else.
    pub Held-elsewhere :
        {b b0 : HexBucket Float}
        → (Covers (pc i) k → ⊥)
        → (Covers p' k → ⊥)
        → Held b b0 pc k
        → Held b b0 (update pc i p') k
    Held-elsewhere away away' (at_rest e none_there) =
        at_rest e (update-each (λ j p. Covers p k → ⊥) pc i away' (λ j ne. none_there j))
    Held-elsewhere {b} {b0} away away' (taken i0 c d only) =
        let ne : i ≢ i0 = λ same. away (subst (λ x. Covers (pc x) k) (sym same) c) in
        let kept = sym (update-other pc i p' i0 ne) in
        taken i0 (subst (λ p. Covers p k) kept c) (subst (λ p. DoneAt p b b0) kept d) (
          update-each (λ j p. Covers p k → j ≡ i0) pc i (λ c'. absurd (away' c')) (λ j ne'. only j))

    one_only :
        (c : Covers p' k)
        → ((j : ℕ) → i ≢ j → Covers (pc j) k → ⊥)
        → (j : ℕ) → Covers (update pc i p' j) k
        → j ≡ i
    one_only c none_else =
        update-each (λ j p. Covers p k → j ≡ i) pc i (λ c'. refl)
          (λ j ne c'. absurd (none_else j ne c'))

    takes :
        {b' b0' : HexBucket Float}
        → Covers p' k
        → DoneAt p' b' b0'
        → ((j : ℕ) → i ≢ j → Covers (pc j) k → ⊥)
        → Held b' b0' (update pc i p') k
    takes {b'} {b0'} c d none_else =
        let put = sym (update-same pc i p') in
        taken i (subst (λ p. Covers p k) put c) (subst (λ p. DoneAt p b' b0') put d)
          (one_only c none_else)

    -- It gets the lock.
    pub Held-acquire :
        {b b' b0 : HexBucket Float}
        → b.lock ≡ false
        → Covers p' k
        → (b ≡ b0 → DoneAt p' b' b0)
        → Held b b0 pc k
        → Held b' b0 (update pc i p') k
    Held-acquire open_lock c d (at_rest e none_there) = takes c (d e) (λ j ne. none_there j)
    Held-acquire {b} {b0} open_lock c d (taken i0 c0 d0 only) =
        let shut = DoneAt-locked (pc i0) k b b0 c0 d0 in absurd cc

    -- It goes on with the lock, and gives it back.
    pub Held-access :
        {b b' b0 : HexBucket Float}
        → Covers (pc i) k
        → Covers p' k
        → (DoneAt (pc i) b b0 → DoneAt p' b' b0)
        → Held b b0 pc k
        → Held b' b0 (update pc i p') k
    Held-access c c' d (at_rest e none_there) = absurd (none_there i c)
    Held-access {b} {b0} c c' d (taken i0 c0 d0 only) =
        let same : i ≡ i0 = only i c in
        takes c' (d (subst (λ x. DoneAt (pc x) b b0) (sym same) d0))
          (λ j ne cj. ne (same ∙ sym (only j cj)))

    pub Held-clear :
        {b b' b0 b0' : HexBucket Float}
        → Covers (pc i) k
        → (Covers p' k → ⊥)
        → (DoneAt (pc i) b b0 → b' ≡ b0')
        → Held b b0 pc k
        → Held b' b0' (update pc i p') k
    Held-clear c away d (at_rest e none_there) = absurd (none_there i c)
    Held-clear {b} {b0} c away d (taken i0 c0 d0 only) =
        let same : i ≡ i0 = only i c in
        at_rest (d (subst (λ x. DoneAt (pc x) b b0) (sym same) d0))
          (update-each (λ j p. Covers p k → ⊥) pc i away (λ j ne cj. ne (same ∙ sym (only j cj))))
