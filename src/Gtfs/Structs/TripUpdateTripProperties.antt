-- ===== src/Gtfs/Structs/TripUpdateTripProperties.antt =====
-- The struct of include/gtfs-realtime.pb-c.h for the message trip_update_trip_properties, and its initial value.
use telemetrix_db.Base.{List, [], ◌∷◌}
use telemetrix_db.Gtfs.{trip_update_trip_properties}
use telemetrix_db.Gtfs.Member.{Member, Message, member, chars, null}

-- The members of the struct, in order, after its `base`.
abbrev pub trip_update_trip_properties_members : List Member
trip_update_trip_properties_members =
    member "trip_id" chars
    ∷ member "start_date" chars
    ∷ member "start_time" chars
    ∷ member "shape_id" chars
    ∷ member "trip_headsign" chars
    ∷ member "trip_short_name" chars
    ∷ []

-- The value of its `__INIT` macro.
abbrev pub trip_update_trip_properties_init_value : Message
trip_update_trip_properties_init_value = record {
  base = trip_update_trip_properties;
  values = null ∷ null ∷ null ∷ null ∷ null ∷ null ∷ [];
}

-- `transit_realtime__trip_update__trip_properties__init`
abbrev pub trip_update_trip_properties_init : Message → Message
trip_update_trip_properties_init message = trip_update_trip_properties_init_value
