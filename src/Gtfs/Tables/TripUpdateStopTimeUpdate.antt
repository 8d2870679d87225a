-- ===== src/Gtfs/Tables/TripUpdateStopTimeUpdate.antt =====
-- Generated tables of src/ingestion/gtfs-realtime.pb-c.c for the message
-- trip_update__stop_time_update.
use telemetrix_db.Base.{ℕ, none, some, List, [], ◌∷◌, ℤ}
use telemetrix_db.Gtfs.{
  FieldDescriptor, MessageDescriptor, IntRange, field, range, optional, enum, message, string,
  uint32, no_target, to_message, to_enum, trip_update_stop_time_event, trip_update_stop_time_update,
  trip_update_stop_time_update_schedule_relationship,
  trip_update_stop_time_update_stop_time_properties, vehicle_position_occupancy_status,
}

-- `transit_realtime__trip_update__stop_time_update__field_descriptors`
abbrev pub trip_update_stop_time_update_fields : List FieldDescriptor
trip_update_stop_time_update_fields =
    field "stop_sequence" 1 optional uint32 (some "has_stop_sequence") "stop_sequence" no_target
      none
    ∷ field "arrival" 2 optional message none "arrival" (to_message trip_update_stop_time_event)
        none
    ∷ field "departure" 3 optional message none "departure" (to_message trip_update_stop_time_event)
        none
    ∷ field "stop_id" 4 optional string none "stop_id" no_target none
    ∷ field "schedule_relationship" 5 optional enum (some "has_schedule_relationship")
        "schedule_relationship" (to_enum trip_update_stop_time_update_schedule_relationship)
        (some (ℤ.pos 0))
    ∷ field "stop_time_properties" 6 optional message none "stop_time_properties"
        (to_message trip_update_stop_time_update_stop_time_properties) none
    ∷ field "departure_occupancy_status" 7 optional enum (some "has_departure_occupancy_status")
        "departure_occupancy_status" (to_enum vehicle_position_occupancy_status) none
    ∷ []

-- `transit_realtime__trip_update__stop_time_update__field_indices_by_name`
abbrev pub trip_update_stop_time_update_indices_by_name : List ℕ
trip_update_stop_time_update_indices_by_name = 1 ∷ 2 ∷ 6 ∷ 4 ∷ 3 ∷ 0 ∷ 5 ∷ []

-- `transit_realtime__trip_update__stop_time_update__number_ranges`
abbrev pub trip_update_stop_time_update_number_ranges : List IntRange
trip_update_stop_time_update_number_ranges = range 1 0 ∷ range 0 7 ∷ []

-- `transit_realtime__trip_update__stop_time_update__descriptor`
abbrev pub trip_update_stop_time_update_descriptor : MessageDescriptor
trip_update_stop_time_update_descriptor = record {
  name = "transit_realtime.TripUpdate.StopTimeUpdate";
  short_name = "StopTimeUpdate";
  c_name = "TransitRealtime__TripUpdate__StopTimeUpdate";
  package_name = "transit_realtime";
  n_fields = 7;
  fields = trip_update_stop_time_update_fields;
  fields_sorted_by_name = trip_update_stop_time_update_indices_by_name;
  n_field_ranges = 1;
  field_ranges = trip_update_stop_time_update_number_ranges;
  message_init = trip_update_stop_time_update;
}
