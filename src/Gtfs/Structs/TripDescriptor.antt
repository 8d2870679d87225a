-- ===== src/Gtfs/Structs/TripDescriptor.antt =====
-- The struct of include/gtfs-realtime.pb-c.h for the message trip_descriptor, and its initial value.
use telemetrix_db.Base.{List, [], ◌∷◌, ℤ}
use telemetrix_db.Gtfs.{
  trip_descriptor, trip_descriptor_modified_trip_selector, trip_descriptor_schedule_relationship,
}
use telemetrix_db.Gtfs.Member.{
  Member, Message, member, boolean, chars, enum_of, pointer_to, uint32, null, number,
}

-- The members of the struct, in order, after its `base`.
abbrev pub trip_descriptor_members : List Member
trip_descriptor_members =
    member "trip_id" chars
    ∷ member "route_id" chars
    ∷ member "has_direction_id" boolean
    ∷ member "direction_id" uint32
    ∷ member "start_time" chars
    ∷ member "start_date" chars
    ∷ member "has_schedule_relationship" boolean
    ∷ member "schedule_relationship" (enum_of trip_descriptor_schedule_relationship)
    ∷ member "modified_trip" (pointer_to trip_descriptor_modified_trip_selector)
    ∷ []

-- The value of its `__INIT` macro.
abbrev pub trip_descriptor_init_value : Message
trip_descriptor_init_value = record {
  base = trip_descriptor;
  values =
      null
      ∷ null
      ∷ number (ℤ.pos 0)
      ∷ number (ℤ.pos 0)
      ∷ null
      ∷ null
      ∷ number (ℤ.pos 0)
      ∷ number (ℤ.pos 0)
      ∷ null
      ∷ [];
}

-- `transit_realtime__trip_descriptor__init`
abbrev pub trip_descriptor_init : Message → Message
trip_descriptor_init message = trip_descriptor_init_value
