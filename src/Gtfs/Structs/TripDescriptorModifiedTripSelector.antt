-- ===== src/Gtfs/Structs/TripDescriptorModifiedTripSelector.antt =====
-- The struct of include/gtfs-realtime.pb-c.h for the message trip_descriptor_modified_trip_selector, and its initial value.
use telemetrix_db.Base.{List, [], ◌∷◌}
use telemetrix_db.Gtfs.{trip_descriptor_modified_trip_selector}
use telemetrix_db.Gtfs.Member.{Member, Message, member, chars, null}

-- The members of the struct, in order, after its `base`.
abbrev pub trip_descriptor_modified_trip_selector_members : List Member
trip_descriptor_modified_trip_selector_members =
    member "modifications_id" chars
    ∷ member "affected_trip_id" chars
    ∷ member "start_time" chars
    ∷ member "start_date" chars
    ∷ []

-- The value of its `__INIT` macro.
abbrev pub trip_descriptor_modified_trip_selector_init_value : Message
trip_descriptor_modified_trip_selector_init_value = record {
  base = trip_descriptor_modified_trip_selector;
  values = null ∷ null ∷ null ∷ null ∷ [];
}

-- `transit_realtime__trip_descriptor__modified_trip_selector__init`
abbrev pub trip_descriptor_modified_trip_selector_init : Message → Message
trip_descriptor_modified_trip_selector_init message =
    trip_descriptor_modified_trip_selector_init_value
