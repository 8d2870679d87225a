-- ===== src/Gtfs/Tables/VehiclePosition.antt =====
-- Generated tables of src/ingestion/gtfs-realtime.pb-c.c for the message vehicle_position.
use telemetrix_db.Base.{ℕ, none, some, List, [], ◌∷◌, ℤ}
use telemetrix_db.Gtfs.{
  FieldDescriptor, MessageDescriptor, IntRange, field, range, optional, repeated, enum, message,
  string, uint32, uint64, no_target, to_message, to_enum, position, trip_descriptor,
  vehicle_descriptor, vehicle_position, vehicle_position_carriage_details,
  vehicle_position_congestion_level, vehicle_position_occupancy_status,
  vehicle_position_vehicle_stop_status,
}

-- `transit_realtime__vehicle_position__field_descriptors`
abbrev pub vehicle_position_fields : List FieldDescriptor
vehicle_position_fields =
    field "trip" 1 optional message none "trip" (to_message trip_descriptor) none
    ∷ field "position" 2 optional message none "position" (to_message position) none
    ∷ field "current_stop_sequence" 3 optional uint32 (some "has_current_stop_sequence")
        "current_stop_sequence" no_target none
    ∷ field "current_status" 4 optional enum (some "has_current_status") "current_status"
        (to_enum vehicle_position_vehicle_stop_status) (some (ℤ.pos 2))
    ∷ field "timestamp" 5 optional uint64 (some "has_timestamp") "timestamp" no_target none
    ∷ field "congestion_level" 6 optional enum (some "has_congestion_level") "congestion_level"
        (to_enum vehicle_position_congestion_level) none
    ∷ field "stop_id" 7 optional string none "stop_id" no_target none
    ∷ field "vehicle" 8 optional message none "vehicle" (to_message vehicle_descriptor) none
    ∷ field "occupancy_status" 9 optional enum (some "has_occupancy_status") "occupancy_status"
        (to_enum vehicle_position_occupancy_status) none
    ∷ field "occupancy_percentage" 10 optional uint32 (some "has_occupancy_percentage")
        "occupancy_percentage" no_target none
    ∷ field "multi_carriage_details" 11 repeated message (some "n_multi_carriage_details")
        "multi_carriage_details" (to_message vehicle_position_carriage_details) none
    ∷ []

-- `transit_realtime__vehicle_position__field_indices_by_name`
abbrev pub vehicle_position_indices_by_name : List ℕ
vehicle_position_indices_by_name = 5 ∷ 3 ∷ 2 ∷ 10 ∷ 9 ∷ 8 ∷ 1 ∷ 6 ∷ 4 ∷ 0 ∷ 7 ∷ []

-- `transit_realtime__vehicle_position__number_ranges`
abbrev pub vehicle_position_number_ranges : List IntRange
vehicle_position_number_ranges = range 1 0 ∷ range 0 11 ∷ []

-- `transit_realtime__vehicle_position__descriptor`
abbrev pub vehicle_position_descriptor : MessageDescriptor
vehicle_position_descriptor = record {
  name = "transit_realtime.VehiclePosition";
  short_name = "VehiclePosition";
  c_name = "TransitRealtime__VehiclePosition";
  package_name = "transit_realtime";
  n_fields = 11;
  fields = vehicle_position_fields;
  fields_sorted_by_name = vehicle_position_indices_by_name;
  n_field_ranges = 1;
  field_ranges = vehicle_position_number_ranges;
  message_init = vehicle_position;
}
