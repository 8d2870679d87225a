-- ===== src/Gtfs/Structs/VehiclePosition.antt =====
-- The struct of include/gtfs-realtime.pb-c.h for the message vehicle_position, and its initial value.
use telemetrix_db.Base.{List, [], ◌∷◌, ℤ}
use telemetrix_db.Gtfs.{
  position, trip_descriptor, vehicle_descriptor, vehicle_position,
  vehicle_position_carriage_details, vehicle_position_congestion_level,
  vehicle_position_occupancy_status, vehicle_position_vehicle_stop_status,
}
use telemetrix_db.Gtfs.Member.{
  Member, Message, member, boolean, chars, enum_of, pointer_to, pointers_to, size, uint32, uint64,
  null, number,
}

-- The members of the struct, in order, after its `base`.
abbrev pub vehicle_position_members : List Member
vehicle_position_members =
    member "trip" (pointer_to trip_descriptor)
    ∷ member "vehicle" (pointer_to vehicle_descriptor)
    ∷ member "position" (pointer_to position)
    ∷ member "has_current_stop_sequence" boolean
    ∷ member "current_stop_sequence" uint32
    ∷ member "stop_id" chars
    ∷ member "has_current_status" boolean
    ∷ member "current_status" (enum_of vehicle_position_vehicle_stop_status)
    ∷ member "has_timestamp" boolean
    ∷ member "timestamp" uint64
    ∷ member "has_congestion_level" boolean
    ∷ member "congestion_level" (enum_of vehicle_position_congestion_level)
    ∷ member "has_occupancy_status" boolean
    ∷ member "occupancy_status" (enum_of vehicle_position_occupancy_status)
    ∷ member "has_occupancy_percentage" boolean
    ∷ member "occupancy_percentage" uint32
    ∷ member "n_multi_carriage_details" size
    ∷ member "multi_carriage_details" (pointers_to vehicle_position_carriage_details)
    ∷ []

-- The value of its `__INIT` macro.
abbrev pub vehicle_position_init_value : Message
vehicle_position_init_value = record {
  base = vehicle_position;
  values =
      null
      ∷ null
      ∷ null
      ∷ number (ℤ.pos 0)
      ∷ number (ℤ.pos 0)
      ∷ null
      ∷ number (ℤ.pos 0)
      ∷ number (ℤ.pos 2)
      ∷ number (ℤ.pos 0)
      ∷ number (ℤ.pos 0)
      ∷ number (ℤ.pos 0)
      ∷ number (ℤ.pos 0)
      ∷ number (ℤ.pos 0)
      ∷ number (ℤ.pos 0)
      ∷ number (ℤ.pos 0)
      ∷ number (ℤ.pos 0)
      ∷ number (ℤ.pos 0)
      ∷ null
      ∷ [];
}

-- `transit_realtime__vehicle_position__init`
abbrev pub vehicle_position_init : Message → Message
vehicle_position_init message = vehicle_position_init_value
