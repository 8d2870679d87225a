-- ===== src/Gtfs/Tables/TripUpdateStopTimeUpdateStopTimeProperties.antt =====
-- Generated tables of src/ingestion/gtfs-realtime.pb-c.c for the message
-- trip_update__stop_time_update__stop_time_properties.
use telemetrix_db.Base.{ℕ, none, some, List, [], ◌∷◌}
use telemetrix_db.Gtfs.{
  FieldDescriptor, MessageDescriptor, IntRange, field, range, optional, enum, string, no_target,
  to_enum, trip_update_stop_time_update_stop_time_properties,
  trip_update_stop_time_update_stop_time_properties_drop_off_pickup_type,
}

-- `transit_realtime__trip_update__stop_time_update__stop_time_properties__field_descriptors`
abbrev pub trip_update_stop_time_update_stop_time_properties_fields : List FieldDescriptor
trip_update_stop_time_update_stop_time_properties_fields =
    field "assigned_stop_id" 1 optional string none "assigned_stop_id" no_target none
    ∷ field "stop_headsign" 2 optional string none "stop_headsign" no_target none
    ∷ field "pickup_type" 3 optional enum (some "has_pickup_type") "pickup_type"
        (to_enum trip_update_stop_time_update_stop_time_properties_drop_off_pickup_type) none
    ∷ field "drop_off_type" 4 optional enum (some "has_drop_off_type") "drop_off_type"
        (to_enum trip_update_stop_time_update_stop_time_properties_drop_off_pickup_type) none
    ∷ []

-- `transit_realtime__trip_update__stop_time_update__stop_time_properties__field_indices_by_name`
abbrev pub trip_update_stop_time_update_stop_time_properties_indices_by_name : List ℕ
trip_update_stop_time_update_stop_time_properties_indices_by_name = 0 ∷ 3 ∷ 2 ∷ 1 ∷ []

-- `transit_realtime__trip_update__stop_time_update__stop_time_properties__number_ranges`
abbrev pub trip_update_stop_time_update_stop_time_properties_number_ranges : List IntRange
trip_update_stop_time_update_stop_time_properties_number_ranges = range 1 0 ∷ range 0 4 ∷ []

-- `transit_realtime__trip_update__stop_time_update__stop_time_properties__descriptor`
abbrev pub trip_update_stop_time_update_stop_time_properties_descriptor : MessageDescriptor
trip_update_stop_time_update_stop_time_properties_descriptor = record {
  name = "transit_realtime.TripUpdate.StopTimeUpdate.StopTimeProperties";
  short_name = "StopTimeProperties";
  c_name = "TransitRealtime__TripUpdate__StopTimeUpdate__StopTimeProperties";
  package_name = "transit_realtime";
  n_fields = 4;
  fields = trip_update_stop_time_update_stop_time_properties_fields;
  fields_sorted_by_name = trip_update_stop_time_update_stop_time_properties_indices_by_name;
  n_field_ranges = 1;
  field_ranges = trip_update_stop_time_update_stop_time_properties_number_ranges;
  message_init = trip_update_stop_time_update_stop_time_properties;
}
