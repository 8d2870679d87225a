-- ===== src/Gtfs/Tables/VehicleDescriptor.antt =====
-- Generated tables of src/ingestion/gtfs-realtime.pb-c.c for the message vehicle_descriptor.
use telemetrix_db.Base.{ℕ, none, some, List, [], ◌∷◌, ℤ}
use telemetrix_db.Gtfs.{
  FieldDescriptor, MessageDescriptor, IntRange, field, range, optional, enum, string, no_target,
  to_enum, vehicle_descriptor, vehicle_descriptor_wheelchair_accessible,
}

-- `transit_realtime__vehicle_descriptor__field_descriptors`
abbrev pub vehicle_descriptor_fields : List FieldDescriptor
vehicle_descriptor_fields =
    field "id" 1 optional string none "id" no_target none
    ∷ field "label" 2 optional string none "label" no_target none
    ∷ field "license_plate" 3 optional string none "license_plate" no_target none
    ∷ field "wheelchair_accessible" 4 optional enum (some "has_wheelchair_accessible")
        "wheelchair_accessible" (to_enum vehicle_descriptor_wheelchair_accessible) (some (ℤ.pos 0))
    ∷ []

-- `transit_realtime__vehicle_descriptor__field_indices_by_name`
abbrev pub vehicle_descriptor_indices_by_name : List ℕ
vehicle_descriptor_indices_by_name = 0 ∷ 1 ∷ 2 ∷ 3 ∷ []

-- `transit_realtime__vehicle_descriptor__number_ranges`
abbrev pub vehicle_descriptor_number_ranges : List IntRange
vehicle_descriptor_number_ranges = range 1 0 ∷ range 0 4 ∷ []

-- `transit_realtime__vehicle_descriptor__descriptor`
abbrev pub vehicle_descriptor_descriptor : MessageDescriptor
vehicle_descriptor_descriptor = record {
  name = "transit_realtime.VehicleDescriptor";
  short_name = "VehicleDescriptor";
  c_name = "TransitRealtime__VehicleDescriptor";
  package_name = "transit_realtime";
  n_fields = 4;
  fields = vehicle_descriptor_fields;
  fields_sorted_by_name = vehicle_descriptor_indices_by_name;
  n_field_ranges = 1;
  field_ranges = vehicle_descriptor_number_ranges;
  message_init = vehicle_descriptor;
}
