-- ===== src/Gtfs/Tables/TripDescriptor.antt =====
-- Generated tables of src/ingestion/gtfs-realtime.pb-c.c for the message trip_descriptor.
use telemetrix_db.Base.{ℕ, none, some, List, [], ◌∷◌}
use telemetrix_db.Gtfs.{
  FieldDescriptor, MessageDescriptor, IntRange, field, range, optional, enum, message, string,
  uint32, no_target, to_message, to_enum, trip_descriptor, trip_descriptor_modified_trip_selector,
  trip_descriptor_schedule_relationship,
}

-- `transit_realtime__trip_descriptor__field_descriptors`
abbrev pub trip_descriptor_fields : List FieldDescriptor
trip_descriptor_fields =
    field "trip_id" 1 optional string none "trip_id" no_target none
    ∷ field "start_time" 2 optional string none "start_time" no_target none
    ∷ field "start_date" 3 optional string none "start_date" no_target none
    ∷ field "schedule_relationship" 4 optional enum (some "has_schedule_relationship")
        "schedule_relationship" (to_enum trip_descriptor_schedule_relationship) none
    ∷ field "route_id" 5 optional string none "route_id" no_target none
    ∷ field "direction_id" 6 optional uint32 (some "has_direction_id") "direction_id" no_target none
    ∷ field "modified_trip" 7 optional message none "modified_trip"
        (to_message trip_descriptor_modified_trip_selector) none
    ∷ []

-- `transit_realtime__trip_descriptor__field_indices_by_name`
abbrev pub trip_descriptor_indices_by_name : List ℕ
trip_descriptor_indices_by_name = 5 ∷ 6 ∷ 4 ∷ 3 ∷ 2 ∷ 1 ∷ 0 ∷ []

-- `transit_realtime__trip_descriptor__number_ranges`
abbrev pub trip_descriptor_number_ranges : List IntRange
trip_descriptor_number_ranges = range 1 0 ∷ range 0 7 ∷ []

-- `transit_realtime__trip_descriptor__descriptor`
abbrev pub trip_descriptor_descriptor : MessageDescriptor
trip_descriptor_descriptor = record {
  name = "transit_realtime.TripDescriptor";
  short_name = "TripDescriptor";
  c_name = "TransitRealtime__TripDescriptor";
  package_name = "transit_realtime";
  n_fields = 7;
  fields = trip_descriptor_fields;
  fields_sorted_by_name = trip_descriptor_indices_by_name;
  n_field_ranges = 1;
  field_ranges = trip_descriptor_number_ranges;
  message_init = trip_descriptor;
}
