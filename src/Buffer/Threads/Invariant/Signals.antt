-- ===== src/Buffer/Threads/Invariant/Signals.antt =====
-- A signal and a broadcast keep the invariant: what they wake was asleep.
use telemetrix_db.Base.{
  ℕ, ◌<◌, ◌≡◌, true, false, update, total-eq-zero, total-map_same, subst, arith, Option,
}
use telemetrix_db.Buffer.Threads.{
  Pc, Shared, push_sleep, push_signal, push_unlock, pop_sleep, pop_signal, pop_unlock,
  shutdown_wake_empty, shutdown_wake_full, shutdown_unlock, wake_empty, wake_full, sleeps_empty,
  sleeps_full, Signal, one, nobody, System, Step, pick, signal_empty, signal_full, broadcast_empty,
  broadcast_full,
}
use telemetrix_db.Buffer.Threads.Weights.{
  holds, asleep_empty, asleep_full, serves_empty, serves_full, closes_empty, closes_full,
}
use telemetrix_db.Buffer.Threads.Invariant.Defs.{Exclusive, Awake, Inv}
use telemetrix_db.Buffer.Threads.Invariant.Moves.{Counts, counts, Move-Inv}

module _ {A : Type 0} where
  not_asleep_empty : (p : Pc A) → sleeps_empty p ≡ false → asleep_empty p ≡ 0
  not_asleep_empty p h = ground arith

  not_asleep_full : (p : Pc A) → sleeps_full p ≡ false → asleep_full p ≡ 0
  not_asleep_full p h = ground arith

  -- The sender's own step, as counts at its known place.
  sent : {n i : ℕ} {pc : ℕ → Pc A} {p : Pc A} (p' : Pc A) → i < n → pc i ≡ p → Counts n i pc p p'
  sent {n} {i} {pc} p' below e = subst (λ p. Counts n i pc p p') e (counts n i pc p' below)

  module _ {n : ℕ} {m : Shared A} where
    wake_one_empty :
        {i j : ℕ} {pc : ℕ → Pc A} (p : Pc A)
        → sleeps_empty p ≡ true
        → Counts n i pc push_signal (push_unlock true)
        → Counts n j (update pc i (push_unlock true)) p (wake_empty p)
        → Exclusive n m pc × Awake n m pc
        → Exclusive n m (update (update pc i (push_unlock true)) j (wake_empty p))
          × Awake n m (update (update pc i (push_unlock true)) j (wake_empty p))
    wake_one_empty pop_sleep s c d h = ground arith
    wake_one_empty p s c d h = cc

    wake_one_full :
        {i j : ℕ} {pc : ℕ → Pc A} {o : Option A} (p : Pc A)
        → sleeps_full p ≡ true
        → Counts n i pc (pop_signal o) (pop_unlock true o)
        → Counts n j (update pc i (pop_unlock true o)) p (wake_full p)
        → Exclusive n m pc × Awake n m pc
        → Exclusive n m (update (update pc i (pop_unlock true o)) j (wake_full p))
          × Awake n m (update (update pc i (pop_unlock true o)) j (wake_full p))
    wake_one_full (push_sleep x) s c d h = ground arith
    wake_one_full p s c d h = cc

    -- No sleeper was found: then none is forgotten.
    wake_none_empty :
        {i : ℕ} {pc : ℕ → Pc A}
        → ((j : ℕ) → j < n → sleeps_empty (update pc i (push_unlock true) j) ≡ false)
        → Counts n i pc push_signal (push_unlock true)
        → Exclusive n m pc × Awake n m pc
        → Exclusive n m (update pc i (push_unlock true))
          × Awake n m (update pc i (push_unlock true))
    wake_none_empty {i} {pc} h c k = ground (
      arith,
      total-eq-zero asleep_empty n (update pc i (push_unlock true))
          (λ j below. not_asleep_empty _ (h j below)),
    )

    wake_none_full :
        {i : ℕ} {pc : ℕ → Pc A} {o : Option A}
        → ((j : ℕ) → j < n → sleeps_full (update pc i (pop_unlock true o) j) ≡ false)
        → Counts n i pc (pop_signal o) (pop_unlock true o)
        → Exclusive n m pc × Awake n m pc
        → Exclusive n m (update pc i (pop_unlock true o))
          × Awake n m (update pc i (pop_unlock true o))
    wake_none_full {i} {pc} {o} h c k = ground (
      arith,
      total-eq-zero asleep_full n (update pc i (pop_unlock true o))
          (λ j below. not_asleep_full _ (h j below)),
    )

    -- After a broadcast nobody sleeps on its condition; all other counts of concern stay.
    wake_all_empty :
        {i : ℕ} {pc : ℕ → Pc A}
        → Counts n i pc shutdown_wake_empty shutdown_wake_full
        → Exclusive n m pc × Awake n m pc
        → Exclusive n m (λ j. wake_empty (update pc i shutdown_wake_full j))
          × Awake n m (λ j. wake_empty (update pc i shutdown_wake_full j))
    wake_all_empty {i} {pc} c k =
        let f = update pc i shutdown_wake_full in
        ground (
          arith,
          total-map_same holds wake_empty (λ p. ground arith) n f,
          total-eq-zero asleep_empty n (λ j. wake_empty (f j)) (λ j _. ground arith),
          total-map_same asleep_full wake_empty (λ p. ground arith) n f,
          total-map_same serves_full wake_empty (λ p. ground arith) n f,
          total-map_same closes_full wake_empty (λ p. ground arith) n f,
        )

    wake_all_full :
        {i : ℕ} {pc : ℕ → Pc A}
        → Counts n i pc shutdown_wake_full shutdown_unlock
        → Exclusive n m pc × Awake n m pc
        → Exclusive n m (λ j. wake_full (update pc i shutdown_unlock j))
          × Awake n m (λ j. wake_full (update pc i shutdown_unlock j))
    wake_all_full {i} {pc} c k =
        let f = update pc i shutdown_unlock in
        ground (
          arith,
          total-map_same holds wake_full (λ p. ground arith) n f,
          total-eq-zero asleep_full n (λ j. wake_full (f j)) (λ j _. ground arith),
          total-map_same asleep_empty wake_full (λ p. ground arith) n f,
          total-map_same serves_empty wake_full (λ p. ground arith) n f,
          total-map_same closes_empty wake_full (λ p. ground arith) n f,
        )

  rebuild :
      {n : ℕ} {m : Shared A} {pc pc' : ℕ → Pc A}
      → Inv n m pc
      → Exclusive n m pc' × Awake n m pc'
      → Inv n m pc'
  rebuild inv k = record { exclusive = k.0; valid = inv.valid; kept = inv.kept; awake = k.1 }

  signal_empty-Inv :
      {n i : ℕ} {m : Shared A} {pc pc' : ℕ → Pc A}
      → i < n
      → pc i ≡ push_signal
      → Signal n (update pc i (push_unlock true)) sleeps_empty wake_empty pc'
      → Inv n m pc
      → Inv n m pc'
  signal_empty-Inv {n} {i} {pc} below e (one j jb s) inv = rebuild inv (
      wake_one_empty _ s (sent _ below e) (counts n j (update pc i (push_unlock true)) _ jb)
        (inv.exclusive, inv.awake))
  signal_empty-Inv below e (nobody h) inv =
      rebuild inv (wake_none_empty h (sent _ below e) (inv.exclusive, inv.awake))

  signal_full-Inv :
      {n i : ℕ} {m : Shared A} {o : Option A} {pc pc' : ℕ → Pc A}
      → i < n
      → pc i ≡ pop_signal o
      → Signal n (update pc i (pop_unlock true o)) sleeps_full wake_full pc'
      → Inv n m pc
      → Inv n m pc'
  signal_full-Inv {n} {i} {o} {pc} below e (one j jb s) inv = rebuild inv (
      wake_one_full _ s (sent _ below e) (counts n j (update pc i (pop_unlock true o)) _ jb)
        (inv.exclusive, inv.awake))
  signal_full-Inv below e (nobody h) inv =
      rebuild inv (wake_none_full h (sent _ below e) (inv.exclusive, inv.awake))

  pub Step-Inv : {n : ℕ} {s t : System A} → Step n s t → Inv n s.mem s.pc → Inv n t.mem t.pc
  Step-Inv (pick i below mv) inv = Move-Inv below mv inv
  Step-Inv (signal_empty i below e sg) inv = signal_empty-Inv below e sg inv
  Step-Inv (signal_full i below e sg) inv = signal_full-Inv below e sg inv
  Step-Inv (broadcast_empty i below e) inv =
      rebuild inv (wake_all_empty (sent _ below e) (inv.exclusive, inv.awake))
  Step-Inv (broadcast_full i below e) inv =
      rebuild inv (wake_all_full (sent _ below e) (inv.exclusive, inv.awake))
