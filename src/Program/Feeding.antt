-- ===== src/Program/Feeding.antt =====
-- `ingestion_thread` can go on, wherever it stands, unless `main` has the lock or sleeps.
use telemetrix_db.Base.{
  ℕ, zero, suc, ◌+◌, ◌<◌, ◌≡◌, ◌≢◌, refl, sym, ap, ◌∙◌, Bool, true, false, ◌⊎◌, inl, inr, Option,
  none, List, [], ◌∷◌, update, total-two, Bool-cases, Option-cases, arith,
}
use telemetrix_db.Buffer.{VehicleData, RingBuffer, push_waits}
use telemetrix_db.Buffer.Valid.{IsValid}
use telemetrix_db.Buffer.Threads.{Pc, Shared, Move, signal_empty, sleeps_empty, wake_empty}
use telemetrix_db.Buffer.Threads.Weights.{
  holds, asleep_empty, asleep_full, serves_empty, serves_full,
}
use telemetrix_db.Buffer.Threads.Invariant.{Reach-Inv}
use telemetrix_db.Buffer.Threads.Safety.{no_deadlock}
use telemetrix_db.Parser.{FeedMessage, convert}
use telemetrix_db.Parser.Convert.{HasSizes}
use telemetrix_db.Storage.{H3}
use telemetrix_db.Static.{Names}
use telemetrix_db.Reactor.{Floats}
use telemetrix_db.Program.{Feeder, Program, Run, Runs, is_idle, entities_of}
use telemetrix_db.Program.Roles.{feeds}
use telemetrix_db.Program.Families.{family}
use telemetrix_db.Program.Invariant.{Inv, Runs-Inv}
use telemetrix_db.Program.Motion.{place_of, asleep, Proceeds, placed, moves, one_or_nobody}

module _ {Float Double : Type 0} (floats : Floats Float Double) (stop_names route_names : Names)
    (h3 : H3 Double) (unpack : List ℕ → Option (FeedMessage Float)) (locals : ℕ → VehicleData Float)
    (item : VehicleData Float) (sized : HasSizes item) (all_sized : (i : ℕ) → HasSizes (locals i))
    {rb : RingBuffer (VehicleData Float)} (v : IsValid rb) (empty : rb.count ≡ 0)
    (live : rb.shutdown ≡ false) {s : Program Float}
    (r : Runs floats stop_names route_names h3 unpack locals rb s) where
  abbrev inv : Inv floats stop_names route_names h3 unpack locals item sized all_sized rb s
  inv = Runs-Inv floats stop_names route_names h3 unpack locals item sized all_sized rb live r

  pub lock_free : holds (s.sys.pc 0) ≡ 0 → holds (s.sys.pc 1) ≡ 0 → s.sys.mem.held ≡ false
  lock_free a b = ground (arith, (Reach-Inv v empty inv.reach).exclusive, total-two holds s.sys.pc)

  abbrev pub Goes : Type 0
  Goes = Proceeds floats stop_names route_names h3 unpack locals s

  misplaced :
      {f : Feeder Float} {p : Pc (VehicleData Float)}
      → s.feeder ≡ f
      → s.sys.pc 1 ≡ p
      → family p ≢ place_of f
      → Goes
  misplaced e at ne = absurd (
      ne (
        sym (ap family at)
        ∙ placed floats stop_names route_names h3 unpack locals r
        ∙ ap place_of e))

  -- `ingestion_thread` outside the buffer.
  outside : (f : Feeder Float) → s.feeder ≡ f → s.sys.pc 1 ≡ Pc.idle → Goes
  unfolding entities_of
  outside Feeder.at_test e at = (_, Run.ask e at, tt)
  outside Feeder.asking e at = misplaced e at (λ h. omega arith)
  outside Feeder.downloading e at = (
    _,
    Run.no_message
        (record {
          payload = none;
          out_size = none;
          live = record { blocks = 0; handles = 0; messages = 0 };
        })
        e refl,
    tt,
  )
  outside (Feeder.parsing [] i) e at = (_, Run.round_done e, tt)
  outside (Feeder.parsing (entity ∷ entities) i) e at =
      elim (Option-cases (convert floats.zero_float (locals i) entity)) [
        | inl skips ↦ (_, Run.skip e skips, tt)
        | inr (x, found) ↦ (_, Run.push_call e found at, tt)
      ]
  outside (Feeder.pushing entities i) e at = misplaced e at (λ h. omega arith)
  outside Feeder.stopped e at = absurd (inv.going e)

  -- The return from a push, and from the question.
  push_returns : (f : Feeder Float) (b : Bool) → s.feeder ≡ f → s.sys.pc 1 ≡ Pc.push_unlock b → Goes
  push_returns (Feeder.pushing entities i) b e at = (_, Run.push_return e at, tt)
  push_returns f b e at = misplaced e at (λ h. omega arith)

  answer_returns :
      (f : Feeder Float) (b : Bool) → s.feeder ≡ f → s.sys.pc 1 ≡ Pc.query_unlock b → Goes
  answer_returns Feeder.asking b e at = (_, Run.answered e at, tt)
  answer_returns f b e at = misplaced e at (λ h. omega arith)

  both_serve :
      {x : VehicleData Float}
      → s.sys.pc 0 ≡ Pc.pop_sleep
      → s.sys.pc 1 ≡ Pc.push_sleep x
      → (k : ℕ) → k < 2
      → 0 < serves_empty (s.sys.pc k) + serves_full (s.sys.pc k)
      → ⊥
  both_serve a b zero h p = omega (arith, ap serves_empty a, ap serves_full a, p)
  both_serve a b (suc zero) h p = omega (arith, ap serves_empty b, ap serves_full b, p)
  both_serve a b (suc (suc k)) h p = omega arith

  both_asleep :
      (x : VehicleData Float) → s.sys.pc 0 ≡ Pc.pop_sleep → s.sys.pc 1 ≡ Pc.push_sleep x → ⊥
  both_asleep x a b =
      let (k, below, serves) =
        no_deadlock v empty inv.reach 0 1 (omega arith) (omega arith) (ap asleep_empty a)
          (ap asleep_full b) inv.roles.still_open in
      both_serve a b k below serves

  feeder_moves :
      {p p' : Pc (VehicleData Float)} {m' : Shared (VehicleData Float)}
      → s.sys.pc 1 ≡ p
      → Move s.sys.mem p m' p'
      → is_idle p ≡ false
      → is_idle p' ≡ false
      → asleep p ≡ false
      → Goes
  feeder_moves at mv out out' awake =
      moves floats stop_names route_names h3 unpack locals 1 (omega arith) at mv out out' awake

  -- The test of `buffer_push`, and its signal.
  push_tests : (x : VehicleData Float) → s.sys.pc 1 ≡ Pc.push_test x → Goes
  push_tests x at = elim (Bool-cases (push_waits s.sys.mem.ring)) [
    | inl full ↦ feeder_moves at (Move.push_block full) refl refl refl
    | inr room ↦ feeder_moves at (Move.push_store room inv.roles.still_open) refl refl refl
  ]

  push_signals : s.sys.pc 1 ≡ Pc.push_signal → Goes
  push_signals at =
      let (pc', sg) =
        one_or_nobody (update s.sys.pc 1 (Pc.push_unlock true)) sleeps_empty wake_empty in
      (_, Run.buffer_step (signal_empty 1 (omega arith) at sg) tt, tt)

  -- It can go on if `main` sleeps, or if `main` does not have the lock and this one is no sleeper.
  pub feeder_goes :
      (p : Pc (VehicleData Float))
      → s.sys.pc 1 ≡ p
      → feeds p ≡ true
      → holds (s.sys.pc 0) ≡ 0
      → (asleep p ≡ false) ⊎ (s.sys.pc 0 ≡ Pc.pop_sleep)
      → Goes
  feeder_goes Pc.idle at f a w = outside s.feeder refl at
  feeder_goes (Pc.push_lock x) at f a w =
      feeder_moves at (Move.push_acquire (lock_free a (ap holds at))) refl refl refl
  feeder_goes (Pc.push_test x) at f a w = push_tests x at
  feeder_goes (Pc.push_sleep x) at f a (inl awake) = absurd cc
  feeder_goes (Pc.push_sleep x) at f a (inr sleeps) = absurd (both_asleep x sleeps at)
  feeder_goes (Pc.push_wake x) at f a w =
      feeder_moves at (Move.push_reacquire (lock_free a (ap holds at))) refl refl refl
  feeder_goes Pc.push_signal at f a w = push_signals at
  feeder_goes (Pc.push_unlock b) at f a w = push_returns s.feeder b refl at
  feeder_goes Pc.query_lock at f a w =
      feeder_moves at (Move.query_acquire (lock_free a (ap holds at))) refl refl refl
  feeder_goes Pc.query_read at f a w = feeder_moves at Move.query_load refl refl refl
  feeder_goes (Pc.query_unlock b) at f a w = answer_returns s.feeder b refl at
  feeder_goes p at f a w = absurd cc
