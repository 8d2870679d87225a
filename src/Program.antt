-- ===== src/Program.antt =====
-- src/main.cpp as a whole: `main` and `ingestion_thread` run together over the buffer. The functions
-- of the buffer are those of Buffer/Threads; what stands between their calls is one step.
pub mod Roles
pub mod Flow
pub mod Calls
pub mod Invariant
pub mod Delivery
pub mod Families
pub mod Motion
pub mod Feeding
pub mod Progress
pub mod Main
mod Tests
use telemetrix_db.Base.{
  ℕ, ◌+◌, ◌<◌, ◌≡◌, Bool, true, false, Option, none, some, List, [], ◌∷◌, ◌++◌, if◌then◌else◌,
  update,
}
use telemetrix_db.Buffer.{VehicleData, RingBuffer}
use telemetrix_db.Buffer.Threads.{
  Pc, idle, push_lock, push_unlock, pop_lock, pop_unlock, query_lock, query_unlock, System, Step,
  pick, init, to_list,
}
use telemetrix_db.Parser.{FeedEntity, FeedMessage, convert}
use telemetrix_db.Fetcher.{Fetched}
use telemetrix_db.Storage.{H3}
use telemetrix_db.Static.{Names}
use telemetrix_db.Reactor.{Floats, Reactor, initial, consume, usable}

-- Where `ingestion_thread` stands, with the entities that `parse_and_queue` has before it and the
-- number of the loop's round.
pub data Feeder (Float : Type 0) : Type 0 where
  at_test : Feeder Float  -- before `buffer_is_shutdown`
  asking : Feeder Float  -- inside it
  downloading : Feeder Float
  parsing : List (FeedEntity Float) → ℕ → Feeder Float  -- at the head of the loop over entities
  pushing : List (FeedEntity Float) → ℕ → Feeder Float  -- inside `buffer_push`, these come after
  stopped : Feeder Float

-- `main` is thread 0 and `ingestion_thread` is thread 1. `fed` and `consumed` are the history: the
-- entities of all messages decoded so far, and the records that `buffer_pop` gave to `main`.
pub record Program (Float : Type 0) : Type 0 where
  pub sys : System (VehicleData Float)
  pub feeder : Feeder Float
  pub reactor : Reactor Float
  pub fed : List (FeedEntity Float)
  pub consumed : List (VehicleData Float)

abbrev pub is_idle : {A : Type 0} → Pc A → Bool
is_idle idle = true
is_idle p = false

-- A step of the buffer that neither enters nor leaves one of its functions.
abbrev pub Within : {A : Type 0} {n : ℕ} {s t : System A} → Step n s t → Type 0
Within {s = s} (pick i {p = p} below mv) = (is_idle (s.pc i) ≡ false) × (is_idle p ≡ false)
Within st = Unit

-- Thread `i` goes to another place, and has the lock or not after it.
abbrev pub enter : {A : Type 0} → ℕ → Pc A → System A → System A
enter i p sys = record sys { pc = update sys.pc i p }

abbrev pub leave : {A : Type 0} → ℕ → System A → System A
leave i sys = record { mem = record sys.mem { held = false }; pc = update sys.pc i idle }

-- The entities of the message that a download brings, if it brings one that unpacks.
unfoldable pub entities_of :
    {Float : Type 0}
    → (List ℕ → Option (FeedMessage Float))
    → Fetched
    → Option (List (FeedEntity Float))
entities_of unpack f = elim (usable f) [
  | none ↦ none
  | some bytes ↦ elim (unpack bytes) [ none ↦ none | some msg ↦ some msg.entity ]
]

module _ {Float Double : Type 0} (floats : Floats Float Double) (stop_names route_names : Names)
    (h3 : H3 Double) (unpack : List ℕ → Option (FeedMessage Float))
    (locals : ℕ → VehicleData Float) where
  pub data Run (s : Program Float) : Program Float → Type 0 where
    buffer_step :
        {t : System (VehicleData Float)} (st : Step 2 s.sys t)
        → Within st
        → Run s (record s { sys = t })
    -- `main`: the call of `buffer_pop`, and its return with the rest of the round.
    pop_call : s.sys.pc 0 ≡ idle → Run s (record s { sys = enter 0 pop_lock s.sys })
    pop_return :
        {got : Bool} {item : Option (VehicleData Float)} {st : Reactor Float}
        → s.sys.pc 0 ≡ pop_unlock got item
        → consume floats stop_names route_names h3 item s.reactor ≡ some st
        → Run s
            (record s { sys = leave 0 s.sys; reactor = st; consumed = s.consumed ++ to_list item })
    -- `ingestion_thread`: the test of its `while`.
    ask :
        s.feeder ≡ at_test
        → s.sys.pc 1 ≡ idle
        → Run s (record s { sys = enter 1 query_lock s.sys; feeder = asking })
    answered :
        {shutdown : Bool}
        → s.feeder ≡ asking
        → s.sys.pc 1 ≡ query_unlock shutdown
        → Run s
            (record s { sys = leave 1 s.sys; feeder = if shutdown then stopped else downloading })
    -- A download that brings no message, and one that does.
    no_message :
        (f : Fetched)
        → s.feeder ≡ downloading
        → entities_of unpack f ≡ none
        → Run s (record s { feeder = at_test })
    decoded :
        (f : Fetched) {entities : List (FeedEntity Float)}
        → s.feeder ≡ downloading
        → entities_of unpack f ≡ some entities
        → Run s (record s { feeder = parsing entities 0; fed = s.fed ++ entities })
    -- The loop over the entities: one with no record, one whose record is pushed, the end.
    skip :
        {entity : FeedEntity Float} {entities : List (FeedEntity Float)} {i : ℕ}
        → s.feeder ≡ parsing (entity ∷ entities) i
        → convert floats.zero_float (locals i) entity ≡ none
        → Run s (record s { feeder = parsing entities (i + 1) })
    push_call :
        {entity : FeedEntity Float} {entities : List (FeedEntity Float)} {i : ℕ}
        {item : VehicleData Float}
        → s.feeder ≡ parsing (entity ∷ entities) i
        → convert floats.zero_float (locals i) entity ≡ some item
        → s.sys.pc 1 ≡ idle
        → Run s
            (record s { sys = enter 1 (push_lock item) s.sys; feeder = pushing entities (i + 1) })
    push_return :
        {pushed : Bool} {entities : List (FeedEntity Float)} {i : ℕ}
        → s.feeder ≡ pushing entities i
        → s.sys.pc 1 ≡ push_unlock pushed
        → Run s (record s {
          sys = leave 1 s.sys;
          feeder = if pushed then parsing entities i else at_test;
        })
    round_done : {i : ℕ} → s.feeder ≡ parsing [] i → Run s (record s { feeder = at_test })

  -- `main` has the buffer, and has started the thread.
  abbrev pub boot : RingBuffer (VehicleData Float) → Program Float
  boot rb = record {
    sys = init rb;
    feeder = at_test;
    reactor = initial floats;
    fed = [];
    consumed = [];
  }

  pub data Runs (rb : RingBuffer (VehicleData Float)) : Program Float → Type 0 where
    booted : Runs rb (boot rb)
    then_run : {s t : Program Float} → Runs rb s → Run s t → Runs rb t
