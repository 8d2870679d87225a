-- ===== src/Gtfs/Structs/TripUpdate.antt =====
-- The struct of include/gtfs-realtime.pb-c.h for the message trip_update, and its initial value.
use telemetrix_db.Base.{List, [], ◌∷◌, ℤ}
use telemetrix_db.Gtfs.{
  trip_descriptor, trip_update, trip_update_stop_time_update, trip_update_trip_properties,
  vehicle_descriptor,
}
use telemetrix_db.Gtfs.Member.{
  Member, Message, member, boolean, int32, pointer_to, pointers_to, size, uint64, null, number,
}

-- The members of the struct, in order, after its `base`.
abbrev pub trip_update_members : List Member
trip_update_members =
    member "trip" (pointer_to trip_descriptor)
    ∷ member "vehicle" (pointer_to vehicle_descriptor)
    ∷ member "n_stop_time_update" size
    ∷ member "stop_time_update" (pointers_to trip_update_stop_time_update)
    ∷ member "has_timestamp" boolean
    ∷ member "timestamp" uint64
    ∷ member "has_delay" boolean
    ∷ member "delay" int32
    ∷ member "trip_properties" (pointer_to trip_update_trip_properties)
    ∷ []

-- The value of its `__INIT` macro.
abbrev pub trip_update_init_value : Message
trip_update_init_value = record {
  base = trip_update;
  values =
      null
      ∷ null
      ∷ number (ℤ.pos 0)
      ∷ null
      ∷ number (ℤ.pos 0)
      ∷ number (ℤ.pos 0)
      ∷ number (ℤ.pos 0)
      ∷ number (ℤ.pos 0)
      ∷ null
      ∷ [];
}

-- `transit_realtime__trip_update__init`
abbrev pub trip_update_init : Message → Message
trip_update_init message = trip_update_init_value
