-- ===== src/Program/Progress.antt =====
-- The running program is never stuck: some thread that is not asleep can go on.
use telemetrix_db.Base.{
  ℕ, ◌≡◌, refl, ap, ◌∙◌, true, false, ◌⊎◌, inl, inr, Option, none, some, List, [], ◌∷◌, ◌++◌, map,
  update, total-two, Bool-cases, Option-cases, ◌>>=◌, arith,
}
use telemetrix_db.Buffer.{VehicleData, RingBuffer, pop_waits, pop_refuses}
use telemetrix_db.Buffer.Valid.{IsValid}
use telemetrix_db.Buffer.Threads.{Pc, Shared, Move, signal_full, sleeps_full, wake_full}
use telemetrix_db.Buffer.Threads.Weights.{holds}
use telemetrix_db.Buffer.Threads.Invariant.{Reach-Inv}
use telemetrix_db.Parser.{FeedMessage}
use telemetrix_db.Parser.Convert.{HasSizes}
use telemetrix_db.Storage.{H3}
use telemetrix_db.Storage.Arena.{spatial_arena-shows}
use telemetrix_db.Static.{Names}
use telemetrix_db.Reactor.{Floats, Reactor, initial, consume, consume_all}
use telemetrix_db.Reactor.Consumer.{consume_all-Processed}
use telemetrix_db.Reactor.Rounds.{consume_all-append}
use telemetrix_db.Program.{Program, Run, Runs, is_idle}
use telemetrix_db.Program.Roles.{pops}
use telemetrix_db.Program.Motion.{asleep, Proceeds, moves, one_or_nobody}
use telemetrix_db.Program.Invariant.{Inv, Runs-Inv}
use telemetrix_db.Program.Feeding

-- Who has the lock is not asleep.
holder-awake : {A : Type 0} (p : Pc A) → holds p ≡ 1 → asleep p ≡ false
holder-awake p h = ground arith

found-none : {A : Type 0} {o : Option A} {a : A} → o ≡ some a → o ≡ none → ⊥
found-none e n = cc

module _ {Float Double : Type 0} (floats : Floats Float Double) (stop_names route_names : Names)
    (h3 : H3 Double) (unpack : List ℕ → Option (FeedMessage Float)) (locals : ℕ → VehicleData Float)
    (item : VehicleData Float) (sized : HasSizes item) (all_sized : (i : ℕ) → HasSizes (locals i))
    {rb : RingBuffer (VehicleData Float)} (v : IsValid rb) (empty : rb.count ≡ 0)
    (live : rb.shutdown ≡ false) {s : Program Float}
    (r : Runs floats stop_names route_names h3 unpack locals rb s) where
  abbrev inv : Inv floats stop_names route_names h3 unpack locals item sized all_sized rb s
  inv = Runs-Inv floats stop_names route_names h3 unpack locals item sized all_sized rb live r

  abbrev Goes : Type 0
  Goes = Proceeds floats stop_names route_names h3 unpack locals s

  main_moves :
      {p p' : Pc (VehicleData Float)} {m' : Shared (VehicleData Float)}
      → s.sys.pc 0 ≡ p
      → Move s.sys.mem p m' p'
      → is_idle p ≡ false
      → is_idle p' ≡ false
      → asleep p ≡ false
      → Goes
  main_moves at mv out out' awake =
      moves floats stop_names route_names h3 unpack locals 0 (omega arith) at mv out out' awake

  feeder :
      holds (s.sys.pc 0) ≡ 0 → (asleep (s.sys.pc 1) ≡ false) ⊎ (s.sys.pc 0 ≡ Pc.pop_sleep) → Goes
  feeder a w =
      Feeding.feeder_goes floats stop_names route_names h3 unpack locals item sized all_sized v
        empty live r (s.sys.pc 1) refl inv.roles.feeder_feeds a w

  lock_taken : s.sys.mem.held ≡ true → holds (s.sys.pc 0) ≡ 0 → holds (s.sys.pc 1) ≡ 1
  lock_taken taken a =
      ground (arith, (Reach-Inv v empty inv.reach).exclusive, total-two holds s.sys.pc)

  -- `main` takes the lock if it is free; else the other thread has it, and goes on.
  main_locks :
      {p : Pc (VehicleData Float)}
      → s.sys.pc 0 ≡ p
      → holds p ≡ 0
      → (s.sys.mem.held ≡ false → Goes)
      → Goes
  main_locks at a free = elim (Bool-cases s.sys.mem.held) [
    | inl taken ↦
        feeder (ap holds at ∙ a)
          (inl (holder-awake (s.sys.pc 1) (lock_taken taken (ap holds at ∙ a))))
    | inr e ↦ free e
  ]

  main_tests : s.sys.pc 0 ≡ Pc.pop_test → Goes
  main_tests at = elim (Bool-cases (pop_waits s.sys.mem.ring)) [
    | inl nothing ↦ main_moves at (Move.pop_block nothing) refl refl refl
    | inr there ↦ elim (Bool-cases (pop_refuses s.sys.mem.ring)) [
      | inl over ↦ main_moves at (Move.pop_refuse there over) refl refl refl
      | inr found ↦ main_moves at (Move.pop_take there found) refl refl refl
    ]
  ]

  main_signals : {o : Option (VehicleData Float)} → s.sys.pc 0 ≡ Pc.pop_signal o → Goes
  main_signals {o} at =
      let (pc', sg) =
        one_or_nobody (update s.sys.pc 0 (Pc.pop_unlock true o)) sleeps_full wake_full in
      (_, Run.buffer_step (signal_full 0 (omega arith) at sg) tt, tt)

  after_all :
      (o : Option (VehicleData Float))
      → consume floats stop_names route_names h3 o s.reactor ≡ none
      → consume_all floats stop_names route_names h3
          (map some s.consumed ++ (o ∷ []))
          (initial floats)
        ≡ none
  unfolding consume_all
  after_all o fails =
      rw
        (
          consume_all-append floats stop_names route_names h3 (map some s.consumed) (o ∷ [])
              (initial floats),
          inv.worked,
          ◌>>=◌,
          fails,
        )
        refl

  -- The rest of the consumer's round does not fail.
  consume-goes :
      (o : Option (VehicleData Float))
      → (st : Reactor Float) × (consume floats stop_names route_names h3 o s.reactor ≡ some st)
  consume-goes o = elim (Option-cases (consume floats stop_names route_names h3 o s.reactor)) [
    | inl fails ↦
        let (st, e, p) =
          consume_all-Processed floats stop_names route_names h3 (map some s.consumed ++ (o ∷ []))
            (spatial_arena-shows floats.zero_float) (omega arith) in
        absurd (found-none e (after_all o fails))
    | inr works ↦ works
  ]

  main_goes : (p : Pc (VehicleData Float)) → s.sys.pc 0 ≡ p → pops p ≡ true → Goes
  main_goes Pc.idle at f = (_, Run.pop_call at, tt)
  main_goes Pc.pop_lock at f =
      main_locks at refl (λ free. main_moves at (Move.pop_acquire free) refl refl refl)
  main_goes Pc.pop_test at f = main_tests at
  main_goes Pc.pop_sleep at f = feeder (ap holds at) (inr at)
  main_goes Pc.pop_wake at f =
      main_locks at refl (λ free. main_moves at (Move.pop_reacquire free) refl refl refl)
  main_goes (Pc.pop_signal o) at f = main_signals at
  main_goes (Pc.pop_unlock got o) at f =
      let (st, works) = consume-goes o in (_, Run.pop_return at works, tt)
  main_goes p at f = absurd cc

  -- The running program is never stuck: from a valid, empty, open buffer, in every state that `main`
  -- and `ingestion_thread` reach there is a next step of the program, and the thread that makes it is
  -- not asleep in `pthread_cond_wait`.
  pub Runs-Proceeds : Proceeds floats stop_names route_names h3 unpack locals s
  Runs-Proceeds = main_goes (s.sys.pc 0) refl inv.roles.main_pops
