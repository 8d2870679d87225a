-- ===== src/Parser.antt =====
-- src/ingestion/parser.c: from an unpacked feed message to records in the ring buffer. The structs
-- are those of include/gtfs-realtime.pb-c.h, with the fields that the parser reads.
pub mod Convert
pub mod Queueing
pub mod Pushing
pub mod Records
pub mod Defaults
mod Tests
use telemetrix_db.Base.{
  ℕ, ◌+◌, ◌-◌, ◌^◌, Bool, true, false, Option, none, some, List, [], ◌∷◌, ℤ, to_int32,
  if◌then◌else◌, ◌>>=◌,
}
use telemetrix_db.Text.{bytes, copy_field}
use telemetrix_db.Memory.{Live, new_message, free_message}
use telemetrix_db.Buffer.{VehicleData}

-- A `char *` that may be null.
abbrev pub CharPtr : Type 0
CharPtr = Option (List ℕ)

pub record Position (Float : Type 0) : Type 0 where
  pub latitude : Float
  pub longitude : Float
  pub has_bearing : Bool
  pub bearing : Float
  pub has_speed : Bool
  pub speed : Float

pub record TripDescriptor : Type 0 where
  pub route_id : CharPtr

pub record VehicleDescriptor : Type 0 where
  pub id : CharPtr
  pub label : CharPtr

-- An enum is an `int`; `uint32_t` and `uint64_t` are numbers below 2 ^ 32 and 2 ^ 64.
pub record VehiclePosition (Float : Type 0) : Type 0 where
  pub trip : Option TripDescriptor
  pub vehicle : Option VehicleDescriptor
  pub position : Option (Position Float)
  pub stop_id : CharPtr
  pub has_current_status : Bool
  pub current_status : ℤ
  pub has_timestamp : Bool
  pub timestamp : ℕ
  pub has_congestion_level : Bool
  pub congestion_level : ℤ
  pub has_occupancy_status : Bool
  pub occupancy_status : ℤ
  pub has_occupancy_percentage : Bool
  pub occupancy_percentage : ℕ

pub record FeedEntity (Float : Type 0) : Type 0 where
  pub id : CharPtr
  pub vehicle : Option (VehiclePosition Float)

pub record FeedMessage (Float : Type 0) : Type 0 where
  pub entity : List (FeedEntity Float)

abbrev pub unknown : List ℕ
unknown = bytes "UNKNOWN"

-- `p ? p : s`
abbrev pub or_else : CharPtr → List ℕ → List ℕ
or_else none s = s
or_else (some p) s = p

-- The label, the id and the route behind pointers that may be null.
abbrev pub label_of : Option VehicleDescriptor → CharPtr
label_of none = none
label_of (some v) = v.label

abbrev pub id_of : Option VehicleDescriptor → CharPtr
id_of none = none
id_of (some v) = v.id

abbrev pub route_of : Option TripDescriptor → CharPtr
route_of none = none
route_of (some t) = t.route_id

-- The `if` on the result of `buffer_push`: go on with the next round, or leave the loop.
unfoldable pub after_push :
    {S : Type 0} → Option (Bool × S) → ℕ → (S → Option (ℕ × S)) → Option (ℕ × S)
after_push none pushed_count next = none
after_push (some (true, s)) pushed_count next = next s
after_push (some (false, s)) pushed_count next = some (pushed_count, s)

module _ {Float : Type 0} (zero_float : Float) where
  -- The record built for a vehicle with a position. `item` is the uninitialised local. The
  -- conditional on the percentage has the type `uint32_t`, so its -1 is 2 ^ 32 - 1 until the store.
  pub fill :
      VehicleData Float
      → FeedEntity Float
      → VehiclePosition Float
      → Position Float
      → VehicleData Float
  fill item entity vehicle position = record {
    fleet_number =
        copy_field 16 item.fleet_number
          (or_else (label_of vehicle.vehicle) (or_else entity.id unknown));
    internal_id = copy_field 16 item.internal_id (or_else (id_of vehicle.vehicle) unknown);
    route_id = copy_field 16 item.route_id (or_else (route_of vehicle.trip) unknown);
    lat = position.latitude;
    lon = position.longitude;
    speed = if position.has_speed then position.speed else zero_float;
    occupancy_status = if vehicle.has_occupancy_status then vehicle.occupancy_status else ℤ.pos 7;
    occupancy_percentage =
        to_int32
          (if vehicle.has_occupancy_percentage then vehicle.occupancy_percentage else 2 ^ 32 - 1);
    bearing = if position.has_bearing then position.bearing else zero_float;
    timestamp = if vehicle.has_timestamp then vehicle.timestamp else 0;
    current_status = if vehicle.has_current_status then vehicle.current_status else ℤ.pos 2;
    congestion_level = if vehicle.has_congestion_level then vehicle.congestion_level else ℤ.pos 0;
    stop_id = copy_field 32 item.stop_id (or_else vehicle.stop_id unknown);
  }

  fill_position :
      VehicleData Float
      → FeedEntity Float
      → VehiclePosition Float
      → Option (Position Float)
      → Option (VehicleData Float)
  fill_position item entity vehicle none = none
  fill_position item entity vehicle (some position) = some (fill item entity vehicle position)

  fill_vehicle :
      VehicleData Float
      → FeedEntity Float
      → Option (VehiclePosition Float)
      → Option (VehicleData Float)
  fill_vehicle item entity none = none
  fill_vehicle item entity (some vehicle) = fill_position item entity vehicle vehicle.position

  -- The test `entity->vehicle && entity->vehicle->position`, and the record if it passes.
  unfoldable pub convert : VehicleData Float → FeedEntity Float → Option (VehicleData Float)
  unfolding fill_vehicle fill_position
  convert item entity = fill_vehicle item entity entity.vehicle

  -- The queue, as the parser sees it: `push` is `buffer_push`, on a state that holds the buffer and
  -- whatever other threads do to it; `none` is a call that never returns.
  module _ {S : Type 0} (push : VehicleData Float → S → Option (Bool × S)) where
    -- The loop over the entities, from a count of pushes. The local `item` holds what `locals` says
    -- at each round.
    pub push_entities :
        (ℕ → VehicleData Float) → List (FeedEntity Float) → ℕ → ℕ → S → Option (ℕ × S)
    push_entities locals [] i pushed_count s = some (pushed_count, s)
    push_entities locals (e ∷ es) i pushed_count s = elim (convert (locals i) e) [
      | none ↦ push_entities locals es (i + 1) pushed_count s
      | some item ↦
          after_push (push item s) pushed_count
            (λ s'. push_entities locals es (i + 1) (pushed_count + 1) s')
    ]

    -- `parse_and_queue`, on what `transit_realtime__feed_message__unpack` returned for the bytes:
    -- the number of records pushed, the state after it, and what is live. On a null message nothing
    -- is touched; else the message is freed after the loop, however it ended.
    unfoldable pub parse_and_queue :
        (List ℕ → Option (FeedMessage Float))
        → (ℕ → VehicleData Float)
        → List ℕ
        → S
        → Live
        → Option (ℕ × S × Live)
    unfolding push_entities
    parse_and_queue unpack locals buffer s live = elim (unpack buffer) [
      | none ↦ some (0, s, live)
      | some msg ↦ do
        let unpacked = new_message live
        (pushed_count, s') ← push_entities locals msg.entity 0 0 s
        some (pushed_count, s', free_message unpacked)
    ]
