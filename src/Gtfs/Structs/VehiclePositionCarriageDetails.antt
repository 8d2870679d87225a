-- ===== src/Gtfs/Structs/VehiclePositionCarriageDetails.antt =====
-- The struct of include/gtfs-realtime.pb-c.h for the message vehicle_position_carriage_details, and its initial value.
use telemetrix_db.Base.{List, [], ◌∷◌, ℤ}
use telemetrix_db.Gtfs.{vehicle_position_carriage_details, vehicle_position_occupancy_status}
use telemetrix_db.Gtfs.Member.{
  Member, Message, member, boolean, chars, enum_of, int32, uint32, null, number,
}

-- The members of the struct, in order, after its `base`.
abbrev pub vehicle_position_carriage_details_members : List Member
vehicle_position_carriage_details_members =
    member "id" chars
    ∷ member "label" chars
    ∷ member "has_occupancy_status" boolean
    ∷ member "occupancy_status" (enum_of vehicle_position_occupancy_status)
    ∷ member "has_occupancy_percentage" boolean
    ∷ member "occupancy_percentage" int32
    ∷ member "has_carriage_sequence" boolean
    ∷ member "carriage_sequence" uint32
    ∷ []

-- The value of its `__INIT` macro.
abbrev pub vehicle_position_carriage_details_init_value : Message
vehicle_position_carriage_details_init_value = record {
  base = vehicle_position_carriage_details;
  values =
      null
      ∷ null
      ∷ number (ℤ.pos 0)
      ∷ number (ℤ.pos 7)
      ∷ number (ℤ.pos 0)
      ∷ number (ℤ.negsuc 0)
      ∷ number (ℤ.pos 0)
      ∷ number (ℤ.pos 0)
      ∷ [];
}

-- `transit_realtime__vehicle_position__carriage_details__init`
abbrev pub vehicle_position_carriage_details_init : Message → Message
vehicle_position_carriage_details_init message = vehicle_position_carriage_details_init_value
