-- ===== src/Parser/Tests.antt =====
-- The parser on a small feed. Floats are numbers here.
use telemetrix_db.Base.{
  ℕ, zero, suc, Bool, map, ◌≡◌, inr, refl, true, false, Option, none, some, List, [], ◌∷◌, ℤ,
  replicate, length-replicate, arith,
}
use telemetrix_db.Text.{bytes, copy_field, c_string}
use telemetrix_db.Buffer.{VehicleData, RingBuffer}
use telemetrix_db.Buffer.Valid.{IsValid}
use telemetrix_db.Buffer.Refine.{Holds}
use telemetrix_db.Parser.{
  Position, VehiclePosition, FeedEntity, FeedMessage, unknown, fill, convert, push_entities,
  parse_and_queue,
}
use telemetrix_db.Parser.Convert.{HasSizes, HasTexts, ReadsAs, fill-ReadsAs, convert-fresh}
use telemetrix_db.Parser.Defaults.{value_of, default_of, fill-defaults}
use telemetrix_db.Gtfs.{MessageType, EnumType}
use telemetrix_db.Gtfs.Descriptors.{message_descriptor, enum_descriptor}
use telemetrix_db.Memory.{Live}
use telemetrix_db.Parser.Pushing.{located, Pushes, push_entities-Pushes}
use telemetrix_db.Parser.Queueing.{
  records, push_alone, Parsed, parse_and_queue-Pushed, parse_and_queue-refused,
}

-- A local with this byte in all its arrays.
junk : ℕ → VehicleData ℕ
junk c = record {
  fleet_number = replicate 16 c;
  internal_id = replicate 16 c;
  route_id = replicate 16 c;
  lat = c;
  lon = c;
  speed = c;
  occupancy_status = ℤ.pos c;
  occupancy_percentage = ℤ.pos c;
  bearing = c;
  timestamp = c;
  current_status = ℤ.pos c;
  congestion_level = ℤ.pos c;
  stop_id = replicate 32 c;
}

junk-HasSizes : (c : ℕ) → HasSizes (junk c)
unfolding junk
junk-HasSizes c = record {
  fleet_number = length-replicate 16 c;
  internal_id = length-replicate 16 c;
  route_id = length-replicate 16 c;
  stop_id = length-replicate 32 c;
}

abbrev place : Position ℕ
place = record {
  latitude = 43;
  longitude = 79;
  has_bearing = false;
  bearing = 5;
  has_speed = true;
  speed = 8;
}

-- A bus with a label longer than its field, no id of its own and no stop.
abbrev bus : VehiclePosition ℕ
bus = record {
  trip = some (record { route_id = some (bytes "60") });
  vehicle = some (record { id = none; label = some (bytes "a label too long for it") });
  position = some place;
  stop_id = none;
  has_current_status = false;
  current_status = ℤ.pos 0;
  has_timestamp = true;
  timestamp = 1700000000;
  has_congestion_level = false;
  congestion_level = ℤ.pos 3;
  has_occupancy_status = true;
  occupancy_status = ℤ.pos 5;
  has_occupancy_percentage = false;
  occupancy_percentage = 40;
}

abbrev bus_entity : FeedEntity ℕ
bus_entity = record { id = some (bytes "e1"); vehicle = some bus }

-- An entity that is no vehicle.
abbrev alert_entity : FeedEntity ℕ
alert_entity = record { id = some (bytes "e2"); vehicle = none }

abbrev feed : FeedMessage ℕ
feed = record { entity = bus_entity ∷ alert_entity ∷ bus_entity ∷ [] }

-- Any bytes unpack to the feed, except none at all.
unpack : List ℕ → Option (FeedMessage ℕ)
unpack [] = none
unpack (c ∷ cs) = some feed

bus_texts : HasTexts bus_entity bus
bus_texts = omega arith

bus_fields :
    (c_string (fill 0 (junk 7) bus_entity bus place).fleet_number ≡ bytes "a label too lon")
    × (c_string (fill 0 (junk 7) bus_entity bus place).internal_id ≡ bytes "UNKNOWN")
    × ((fill 0 (junk 7) bus_entity bus place).occupancy_percentage ≡ ℤ.negsuc 0)
    × ((fill 0 (junk 7) bus_entity bus place).current_status ≡ ℤ.pos 2)
unfolding fill copy_field c_string junk
bus_fields = (refl, refl, refl, refl)

fill-ReadsAs_example :
    ReadsAs
      (fill 0 (junk 7) bus_entity bus place)
      (bytes "a label too long for it")
      unknown
      (bytes "60")
      unknown
fill-ReadsAs_example = fill-ReadsAs 0 (junk 7) bus_entity bus place (junk-HasSizes 7) bus_texts

convert-fresh_example : convert 0 (junk 7) bus_entity ≡ convert 0 (junk 9) bus_entity
convert-fresh_example =
    convert-fresh 0 (junk 7) (junk 9) bus_entity (junk-HasSizes 7) (junk-HasSizes 9)

-- A vehicle with no status at all.
abbrev silent : VehiclePosition ℕ
silent = record bus {
  has_occupancy_status = false;
  has_current_status = false;
  has_congestion_level = false;
}

fill-defaults_example :
    (value_of "NO_DATA_AVAILABLE"
        (enum_descriptor EnumType.vehicle_position_occupancy_status).values
      ≡ some (fill 0 (junk 7) bus_entity silent place).occupancy_status)
    × (default_of "current_status" (message_descriptor MessageType.vehicle_position).fields
        ≡ some (fill 0 (junk 7) bus_entity silent place).current_status)
    × (value_of "UNKNOWN_CONGESTION_LEVEL"
          (enum_descriptor EnumType.vehicle_position_congestion_level).values
        ≡ some (fill 0 (junk 7) bus_entity silent place).congestion_level)
fill-defaults_example = fill-defaults 0 (junk 7) bus_entity silent place refl refl refl

-- A ring of two places.
abbrev ring : RingBuffer (VehicleData ℕ)
ring = record {
  buf = junk 0 ∷ junk 0 ∷ [];
  capacity = 2;
  head = 0;
  tail = 0;
  count = 0;
  shutdown = false;
}

ring-IsValid : IsValid ring
ring-IsValid = omega arith

ring-Holds : Holds ring (record { items = []; closed = false })
ring-Holds = record { size = refl; closed = refl; at_place = λ i h. absurd (omega arith) }

-- A queue that refuses after one record.
abbrev one_only : VehicleData ℕ → ℕ → Option (Bool × ℕ)
one_only item zero = some (true, 1)
one_only item (suc n) = some (false, suc n)

push_entities-Pushes_example :
    Pushes one_only
      (map (λ x. fill 0 (junk 7) x.entity x.vehicle x.position) (located feed.entity))
      0
      0
      (push_entities 0 one_only junk feed.entity 0 0 0)
push_entities-Pushes_example =
    push_entities-Pushes 0 (junk 7) (junk-HasSizes 7) junk junk-HasSizes one_only feed.entity 0 0 0

abbrev idle_memory : Live
idle_memory = record { blocks = 1; handles = 0; messages = 0 }

parse_and_queue-Pushed_example :
    Parsed 0 ring
      (record { items = []; closed = false })
      (records 0 (junk 7) feed.entity)
      idle_memory
      (parse_and_queue 0 (push_alone 0) unpack junk (1 ∷ []) ring idle_memory)
unfolding unpack
parse_and_queue-Pushed_example =
    parse_and_queue-Pushed 0 (junk 7) (junk-HasSizes 7) junk junk-HasSizes unpack (1 ∷ [])
      idle_memory refl ring-IsValid refl ring-Holds

parse_and_queue-refused_example :
    parse_and_queue 0
      (push_alone 0)
      unpack
      junk
      (1 ∷ [])
      (record ring { shutdown = true })
      idle_memory
    ≡ some (0, record ring { shutdown = true }, idle_memory)
parse_and_queue-refused_example =
    parse_and_queue-refused 0 (junk 7) (junk-HasSizes 7) junk junk-HasSizes unpack (1 ∷ [])
      idle_memory (record ring { shutdown = true }) (inr refl)
