-- ===== src/Reactor.antt =====
-- src/main.cpp: the consumer's loop in `main`, and the ingestion thread.
pub mod Consumer
pub mod Rounds
pub mod Ingestion
pub mod Pipeline
mod Tests
use telemetrix_db.Base.{
  ℕ, zero, suc, ◌+◌, ◌-◌, ◌%◌, ◌^◌, Bool, true, false, ◌&&◌, Option, none, some, String, List, [],
  ◌∷◌, ◌++◌, ℤ, ltb, ◌==◌, if◌then◌else◌, ◌>>=◌,
}
use telemetrix_db.Text.{c_string, strncmp_eq}
use telemetrix_db.Buffer.{VehicleData}
use telemetrix_db.Parser.{FeedMessage, unknown, parse_and_queue}
use telemetrix_db.Memory.{Live, free}
use telemetrix_db.Fetcher.{Fetched}
use telemetrix_db.Storage.{H3, Buckets, spatial_arena, update_arena}
use telemetrix_db.Static.{Names, lookup}

abbrev pub get_occupancy_string : ℤ → String
get_occupancy_string (ℤ.pos n) =
    if n == 0
    then "EMPTY (0)"
    else if n == 1
    then "MANY SEATS (1)"
    else if n == 2
    then "FEW SEATS (2)"
    else if n == 3
    then "STANDING ROOM ONLY (3)"
    else if n == 4
    then "CRUSHED STANDING (4)"
    else if n == 5
    then "FULL (5)"
    else if n == 6
    then "NOT ACCEPTING PASSENGERS (6)"
    else if n == 7
    then "NO DATA (7)"
    else if n == 8
    then "NOT BOARDABLE (8)"
    else "UNKNOWN"
get_occupancy_string (ℤ.negsuc n) = "UNKNOWN"

-- The arithmetic on floats: `float` to `double`, and `* 3.6f`.
pub record Floats (Float Double : Type 0) : Type 0 where
  pub zero_float : Float
  pub to_double : Float → Double
  pub times_3_6 : Float → Float

-- What is printed for a vehicle with passengers.
pub record Report (Float : Type 0) : Type 0 where
  pub fleet_number : List ℕ
  pub route_display : List ℕ
  pub speed_kmh : Float
  pub occupancy : String
  pub percent : ℤ
  pub bearing : Float
  pub stop_display : List ℕ

-- The consumer's part of the state: the arena, the counter and the output so far.
pub record Reactor (Float : Type 0) : Type 0 where
  pub buckets : Buckets Float
  pub total_processed : ℕ
  pub reports : List (Report Float)

-- `names.count(id) ? names[id] : id`
abbrev pub display : Names → List ℕ → List ℕ
display names id = elim (lookup id names) [ none ↦ id | some name ↦ name ]

-- `status > 1 && status < 6`
abbrev pub has_passengers : ℤ → Bool
has_passengers (ℤ.pos n) = ltb 1 n && ltb n 6
has_passengers (ℤ.negsuc n) = false

-- The test that skips a record: its internal id is UNKNOWN.
abbrev pub is_unknown : {Float : Type 0} → VehicleData Float → Bool
is_unknown bus = strncmp_eq (c_string bus.internal_id) unknown 16

module _ {Float Double : Type 0} (floats : Floats Float Double) where
  -- The state of `main` before its loop.
  abbrev pub initial : Reactor Float
  initial = record { buckets = spatial_arena floats.zero_float; total_processed = 0; reports = [] }

  module _ (stop_names route_names : Names) where
    unfoldable pub report_of : VehicleData Float → Report Float
    unfolding c_string lookup
    report_of bus = record {
      fleet_number = c_string bus.fleet_number;
      route_display = display route_names (c_string bus.route_id);
      speed_kmh = floats.times_3_6 bus.speed;
      occupancy = get_occupancy_string bus.occupancy_status;
      percent = bus.occupancy_percentage;
      bearing = bus.bearing;
      stop_display = display stop_names (c_string bus.stop_id);
    }

    -- What follows the call of `update` in a round: the count, and the output.
    pub after_update : VehicleData Float → Reactor Float → Bool × Buckets Float → Reactor Float
    after_update bus st (updated, buckets) = record {
      buckets = buckets;
      total_processed = if updated then (st.total_processed + 1) % 2 ^ 64 else st.total_processed;
      reports =
          if has_passengers bus.occupancy_status
          then st.reports ++ (report_of bus ∷ [])
          else st.reports;
    }

    module _ (h3 : H3 Double) where
      -- What the loop does with a record that is not skipped.
      pub process : VehicleData Float → Reactor Float → Option (Reactor Float)
      unfolding after_update
      process bus st = do
        r ←
            update_arena floats.zero_float h3 (floats.to_double bus.lat) (floats.to_double bus.lon)
              bus.speed bus.timestamp st.buckets
        some (after_update bus st r)

      -- A round of the loop, on what `buffer_pop` gave: nothing if it returned false.
      pub consume : Option (VehicleData Float) → Reactor Float → Option (Reactor Float)
      unfolding process strncmp_eq
      consume none st = some st
      consume (some bus) st = if is_unknown bus then some st else process bus st

      -- The rounds on a sequence of pops.
      unfoldable pub consume_all :
          List (Option (VehicleData Float)) → Reactor Float → Option (Reactor Float)
      unfolding consume
      consume_all [] st = some st
      consume_all (pop ∷ pops) st = do st' ← consume pop st; consume_all pops st'

-- The test `raw_protobuf != nullptr && payload_size > 0`, and the payload if it passes.
abbrev pub usable : Fetched → Option (List ℕ)
usable f = elim f.payload [
  | none ↦ none
  | some b ↦ elim f.out_size [ none ↦ none | some n ↦ if ltb 0 n then some b else none ]
]

module _ {Float : Type 0} (zero_float : Float) {S : Type 0}
    (push : VehicleData Float → S → Option (Bool × S))
    (unpack : List ℕ → Option (FeedMessage Float)) (locals : ℕ → VehicleData Float) where
  -- A round of `ingestion_thread` after its download: the queue, and what is live.
  unfoldable pub ingest : Fetched → S → Option (S × Live)
  ingest f s = elim (usable f) [
    | none ↦ some (s, f.live)
    | some b ↦ do
      (pushed, s', live) ← parse_and_queue zero_float push unpack locals b s f.live
      some (s', free f.payload live)
  ]

  -- The rounds of `ingestion_thread`: before each, whether the buffer is shut down; the download of
  -- a round starts from what the round before it left live.
  unfoldable pub ingestion_thread : List (Bool × (Live → Fetched)) → S → Live → Option (S × Live)
  unfolding ingest
  ingestion_thread [] s live = some (s, live)
  ingestion_thread ((shutdown, fetch) ∷ rounds) s live =
      if shutdown
      then some (s, live)
      else do (s', live') ← ingest (fetch live) s; ingestion_thread rounds s' live'
