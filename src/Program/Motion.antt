-- ===== src/Program/Motion.antt =====
-- What it is for the program to go on by a thread that is not asleep, and the steps that do it.
use telemetrix_db.Base.{
  ℕ, zero, suc, ◌<◌, ◌≡◌, refl, sym, ap, ◌∙◌, Bool, true, false, ◌||◌, inl, inr, Option, List,
  subst, ℕ_discrete, Bool-cases, arith,
}
use telemetrix_db.Buffer.{VehicleData, RingBuffer}
use telemetrix_db.Buffer.Threads.{Pc, Shared, Move, Signal, pick, sleeps_empty, sleeps_full}
use telemetrix_db.Parser.{FeedMessage}
use telemetrix_db.Storage.{H3}
use telemetrix_db.Static.{Names}
use telemetrix_db.Reactor.{Floats}
use telemetrix_db.Program.{Feeder, Program, Run, Runs, booted, then_run, is_idle}
use telemetrix_db.Program.Families.{family, Step-family}

-- The function of the buffer that `ingestion_thread` is in, by its own place.
abbrev pub place_of : {Float : Type 0} → Feeder Float → ℕ
place_of Feeder.asking = 3
place_of (Feeder.pushing entities i) = 1
place_of feeder = 0

abbrev pub asleep : {A : Type 0} → Pc A → Bool
asleep p = sleeps_empty p || sleeps_full p

-- Some signal can be sent, to a sleeper or to none.
pub one_or_nobody :
    {A : Type 0} (pc : ℕ → Pc A) (sleeps : Pc A → Bool) (wake : Pc A → Pc A)
    → (pc' : ℕ → Pc A) × Signal 2 pc sleeps wake pc'
one_or_nobody pc sleeps wake = elim (Bool-cases (sleeps (pc 0))) [
  | inl e ↦ (_, Signal.one 0 (omega arith) e)
  | inr e ↦ elim (Bool-cases (sleeps (pc 1))) [
    | inl f ↦ (_, Signal.one 1 (omega arith) f)
    | inr f ↦ (pc, Signal.nobody (nobody_of e f))
  ]
]
  where
    nobody_of :
        sleeps (pc 0) ≡ false → sleeps (pc 1) ≡ false → (j : ℕ) → j < 2 → sleeps (pc j) ≡ false
    nobody_of e f zero h = e
    nobody_of e f (suc zero) h = f
    nobody_of e f (suc (suc j)) h = absurd (omega arith)

module _ {Float Double : Type 0} (floats : Floats Float Double) (stop_names route_names : Names)
    (h3 : H3 Double) (unpack : List ℕ → Option (FeedMessage Float))
    (locals : ℕ → VehicleData Float) where
  -- The thread that moves is not asleep: it is no spurious wakeup.
  abbrev pub Wakeful :
      {s t : Program Float} → Run floats stop_names route_names h3 unpack locals s t → Type 0
  Wakeful {s = s} (Run.buffer_step (pick i below mv) w) = asleep (s.sys.pc i) ≡ false
  Wakeful r = Unit

  abbrev pub Proceeds : Program Float → Type 0
  Proceeds s =
      (t : Program Float) × (r : Run floats stop_names route_names h3 unpack locals s t) × Wakeful r

  pub placed :
      {rb : RingBuffer (VehicleData Float)} {s : Program Float}
      → Runs floats stop_names route_names h3 unpack locals rb s
      → family (s.sys.pc 1) ≡ place_of s.feeder
  unfolding ℕ_discrete
  placed booted = refl
  placed (then_run r (Run.buffer_step st w)) = Step-family st w 1 ∙ placed r
  placed (then_run r (Run.pop_call at)) = placed r
  placed (then_run r (Run.pop_return at works)) = placed r
  placed (then_run r (Run.ask f at)) = refl
  placed (then_run r (Run.answered {shutdown = true} f at)) = refl
  placed (then_run r (Run.answered {shutdown = false} f at)) = refl
  placed (then_run r (Run.no_message d f e)) = placed r ∙ ap place_of f
  placed (then_run r (Run.decoded d f e)) = placed r ∙ ap place_of f
  placed (then_run r (Run.skip f e)) = placed r ∙ ap place_of f
  placed (then_run r (Run.push_call f e at)) = refl
  placed (then_run r (Run.push_return {pushed = true} f at)) = refl
  placed (then_run r (Run.push_return {pushed = false} f at)) = refl
  placed (then_run r (Run.round_done f)) = placed r ∙ ap place_of f

  pub moves :
      {s : Program Float} (i : ℕ) {p p' : Pc (VehicleData Float)} {m' : Shared (VehicleData Float)}
      → i < 2
      → s.sys.pc i ≡ p
      → Move s.sys.mem p m' p'
      → is_idle p ≡ false
      → is_idle p' ≡ false
      → asleep p ≡ false
      → Proceeds s
  moves {s} i {p} {p'} {m'} below e mv out out' awake = (
    _,
    Run.buffer_step (pick i below (subst (λ q. Move s.sys.mem q m' p') (sym e) mv))
        (subst (λ q. is_idle q ≡ false) (sym e) out, out'),
    subst (λ q. asleep q ≡ false) (sym e) awake,
  )
