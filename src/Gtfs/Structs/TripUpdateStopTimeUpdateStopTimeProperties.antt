-- ===== src/Gtfs/Structs/TripUpdateStopTimeUpdateStopTimeProperties.antt =====
-- The struct of include/gtfs-realtime.pb-c.h for the message trip_update_stop_time_update_stop_time_properties, and its initial value.
use telemetrix_db.Base.{List, [], ◌∷◌, ℤ}
use telemetrix_db.Gtfs.{
  trip_update_stop_time_update_stop_time_properties,
  trip_update_stop_time_update_stop_time_properties_drop_off_pickup_type,
}
use telemetrix_db.Gtfs.Member.{Member, Message, member, boolean, chars, enum_of, null, number}

-- The members of the struct, in order, after its `base`.
abbrev pub trip_update_stop_time_update_stop_time_properties_members : List Member
trip_update_stop_time_update_stop_time_properties_members =
    member "assigned_stop_id" chars
    ∷ member "stop_headsign" chars
    ∷ member "has_pickup_type" boolean
    ∷ member "pickup_type"
        (enum_of trip_update_stop_time_update_stop_time_properties_drop_off_pickup_type)
    ∷ member "has_drop_off_type" boolean
    ∷ member "drop_off_type"
        (enum_of trip_update_stop_time_update_stop_time_properties_drop_off_pickup_type)
    ∷ []

-- The value of its `__INIT` macro.
abbrev pub trip_update_stop_time_update_stop_time_properties_init_value : Message
trip_update_stop_time_update_stop_time_properties_init_value = record {
  base = trip_update_stop_time_update_stop_time_properties;
  values =
      null ∷ null ∷ number (ℤ.pos 0) ∷ number (ℤ.pos 0) ∷ number (ℤ.pos 0) ∷ number (ℤ.pos 0) ∷ [];
}

-- `transit_realtime__trip_update__stop_time_update__stop_time_properties__init`
abbrev pub trip_update_stop_time_update_stop_time_properties_init : Message → Message
trip_update_stop_time_update_stop_time_properties_init message =
    trip_update_stop_time_update_stop_time_properties_init_value
