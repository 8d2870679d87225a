-- ===== src/Gtfs/Tables/TripUpdateTripProperties.antt =====
-- Generated tables of src/ingestion/gtfs-realtime.pb-c.c for the message
-- trip_update__trip_properties.
use telemetrix_db.Base.{ℕ, none, List, [], ◌∷◌}
use telemetrix_db.Gtfs.{
  FieldDescriptor, MessageDescriptor, IntRange, field, range, optional, string, no_target,
  trip_update_trip_properties,
}

-- `transit_realtime__trip_update__trip_properties__field_descriptors`
abbrev pub trip_update_trip_properties_fields : List FieldDescriptor
trip_update_trip_properties_fields =
    field "trip_id" 1 optional string none "trip_id" no_target none
    ∷ field "start_date" 2 optional string none "start_date" no_target none
    ∷ field "start_time" 3 optional string none "start_time" no_target none
    ∷ field "shape_id" 4 optional string none "shape_id" no_target none
    ∷ field "trip_headsign" 5 optional string none "trip_headsign" no_target none
    ∷ field "trip_short_name" 6 optional string none "trip_short_name" no_target none
    ∷ []

-- `transit_realtime__trip_update__trip_properties__field_indices_by_name`
abbrev pub trip_update_trip_properties_indices_by_name : List ℕ
trip_update_trip_properties_indices_by_name = 3 ∷ 1 ∷ 2 ∷ 4 ∷ 0 ∷ 5 ∷ []

-- `transit_realtime__trip_update__trip_properties__number_ranges`
abbrev pub trip_update_trip_properties_number_ranges : List IntRange
trip_update_trip_properties_number_ranges = range 1 0 ∷ range 0 6 ∷ []

-- `transit_realtime__trip_update__trip_properties__descriptor`
abbrev pub trip_update_trip_properties_descriptor : MessageDescriptor
trip_update_trip_properties_descriptor = record {
  name = "transit_realtime.TripUpdate.TripProperties";
  short_name = "TripProperties";
  c_name = "TransitRealtime__TripUpdate__TripProperties";
  package_name = "transit_realtime";
  n_fields = 6;
  fields = trip_update_trip_properties_fields;
  fields_sorted_by_name = trip_update_trip_properties_indices_by_name;
  n_field_ranges = 1;
  field_ranges = trip_update_trip_properties_number_ranges;
  message_init = trip_update_trip_properties;
}
