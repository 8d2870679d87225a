-- ===== src/Gtfs/Structs/TripUpdateStopTimeUpdate.antt =====
-- The struct of include/gtfs-realtime.pb-c.h for the message trip_update_stop_time_update, and its initial value.
use telemetrix_db.Base.{List, [], ◌∷◌, ℤ}
use telemetrix_db.Gtfs.{
  trip_update_stop_time_event, trip_update_stop_time_update,
  trip_update_stop_time_update_schedule_relationship,
  trip_update_stop_time_update_stop_time_properties, vehicle_position_occupancy_status,
}
use telemetrix_db.Gtfs.Member.{
  Member, Message, member, boolean, chars, enum_of, pointer_to, uint32, null, number,
}

-- The members of the struct, in order, after its `base`.
abbrev pub trip_update_stop_time_update_members : List Member
trip_update_stop_time_update_members =
    member "has_stop_sequence" boolean
    ∷ member "stop_sequence" uint32
    ∷ member "stop_id" chars
    ∷ member "arrival" (pointer_to trip_update_stop_time_event)
    ∷ member "departure" (pointer_to trip_update_stop_time_event)
    ∷ member "has_departure_occupancy_status" boolean
    ∷ member "departure_occupancy_status" (enum_of vehicle_position_occupancy_status)
    ∷ member "has_schedule_relationship" boolean
    ∷ member "schedule_relationship" (enum_of trip_update_stop_time_update_schedule_relationship)
    ∷ member "stop_time_properties" (pointer_to trip_update_stop_time_update_stop_time_properties)
    ∷ []

-- The value of its `__INIT` macro.
abbrev pub trip_update_stop_time_update_init_value : Message
trip_update_stop_time_update_init_value = record {
  base = trip_update_stop_time_update;
  values =
      number (ℤ.pos 0)
      ∷ number (ℤ.pos 0)
      ∷ null
      ∷ null
      ∷ null
      ∷ number (ℤ.pos 0)
      ∷ number (ℤ.pos 0)
      ∷ number (ℤ.pos 0)
      ∷ number (ℤ.pos 0)
      ∷ null
      ∷ [];
}

-- `transit_realtime__trip_update__stop_time_update__init`
abbrev pub trip_update_stop_time_update_init : Message → Message
trip_update_stop_time_update_init message = trip_update_stop_time_update_init_value
