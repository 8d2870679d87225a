-- ===== src/Gtfs/Tables/VehiclePositionCarriageDetails.antt =====
-- Generated tables of src/ingestion/gtfs-realtime.pb-c.c for the message
-- vehicle_position__carriage_details.
use telemetrix_db.Base.{ℕ, none, some, List, [], ◌∷◌, ℤ}
use telemetrix_db.Gtfs.{
  FieldDescriptor, MessageDescriptor, IntRange, field, range, optional, enum, int32, string, uint32,
  no_target, to_enum, vehicle_position_carriage_details, vehicle_position_occupancy_status,
}

-- `transit_realtime__vehicle_position__carriage_details__field_descriptors`
abbrev pub vehicle_position_carriage_details_fields : List FieldDescriptor
vehicle_position_carriage_details_fields =
    field "id" 1 optional string none "id" no_target none
    ∷ field "label" 2 optional string none "label" no_target none
    ∷ field "occupancy_status" 3 optional enum (some "has_occupancy_status") "occupancy_status"
        (to_enum vehicle_position_occupancy_status) (some (ℤ.pos 7))
    ∷ field "occupancy_percentage" 4 optional int32 (some "has_occupancy_percentage")
        "occupancy_percentage" no_target (some (ℤ.negsuc 0))
    ∷ field "carriage_sequence" 5 optional uint32 (some "has_carriage_sequence") "carriage_sequence"
        no_target none
    ∷ []

-- `transit_realtime__vehicle_position__carriage_details__field_indices_by_name`
abbrev pub vehicle_position_carriage_details_indices_by_name : List ℕ
vehicle_position_carriage_details_indices_by_name = 4 ∷ 0 ∷ 1 ∷ 3 ∷ 2 ∷ []

-- `transit_realtime__vehicle_position__carriage_details__number_ranges`
abbrev pub vehicle_position_carriage_details_number_ranges : List IntRange
vehicle_position_carriage_details_number_ranges = range 1 0 ∷ range 0 5 ∷ []

-- `transit_realtime__vehicle_position__carriage_details__descriptor`
abbrev pub vehicle_position_carriage_details_descriptor : MessageDescriptor
vehicle_position_carriage_details_descriptor = record {
  name = "transit_realtime.VehiclePosition.CarriageDetails";
  short_name = "CarriageDetails";
  c_name = "TransitRealtime__VehiclePosition__CarriageDetails";
  package_name = "transit_realtime";
  n_fields = 5;
  fields = vehicle_position_carriage_details_fields;
  fields_sorted_by_name = vehicle_position_carriage_details_indices_by_name;
  n_field_ranges = 1;
  field_ranges = vehicle_position_carriage_details_number_ranges;
  message_init = vehicle_position_carriage_details;
}
