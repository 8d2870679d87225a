-- ===== src/Gtfs/Tables/TripUpdate.antt =====
-- Generated tables of src/ingestion/gtfs-realtime.pb-c.c for the message trip_update.
use telemetrix_db.Base.{ℕ, none, some, List, [], ◌∷◌}
use telemetrix_db.Gtfs.{
  FieldDescriptor, MessageDescriptor, IntRange, field, range, required, optional, repeated, int32,
  message, uint64, no_target, to_message, trip_descriptor, trip_update,
  trip_update_stop_time_update, trip_update_trip_properties, vehicle_descriptor,
}

-- `transit_realtime__trip_update__field_descriptors`
abbrev pub trip_update_fields : List FieldDescriptor
trip_update_fields =
    field "trip" 1 required message none "trip" (to_message trip_descriptor) none
    ∷ field "stop_time_update" 2 repeated message (some "n_stop_time_update") "stop_time_update"
        (to_message trip_update_stop_time_update) none
    ∷ field "vehicle" 3 optional message none "vehicle" (to_message vehicle_descriptor) none
    ∷ field "timestamp" 4 optional uint64 (some "has_timestamp") "timestamp" no_target none
    ∷ field "delay" 5 optional int32 (some "has_delay") "delay" no_target none
    ∷ field "trip_properties" 6 optional message none "trip_properties"
        (to_message trip_update_trip_properties) none
    ∷ []

-- `transit_realtime__trip_update__field_indices_by_name`
abbrev pub trip_update_indices_by_name : List ℕ
trip_update_indices_by_name = 4 ∷ 1 ∷ 3 ∷ 0 ∷ 5 ∷ 2 ∷ []

-- `transit_realtime__trip_update__number_ranges`
abbrev pub trip_update_number_ranges : List IntRange
trip_update_number_ranges = range 1 0 ∷ range 0 6 ∷ []

-- `transit_realtime__trip_update__descriptor`
abbrev pub trip_update_descriptor : MessageDescriptor
trip_update_descriptor = record {
  name = "transit_realtime.TripUpdate";
  short_name = "TripUpdate";
  c_name = "TransitRealtime__TripUpdate";
  package_name = "transit_realtime";
  n_fields = 6;
  fields = trip_update_fields;
  fields_sorted_by_name = trip_update_indices_by_name;
  n_field_ranges = 1;
  field_ranges = trip_update_number_ranges;
  message_init = trip_update;
}
