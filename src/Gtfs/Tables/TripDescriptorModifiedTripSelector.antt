-- ===== src/Gtfs/Tables/TripDescriptorModifiedTripSelector.antt =====
-- Generated tables of src/ingestion/gtfs-realtime.pb-c.c for the message
-- trip_descriptor__modified_trip_selector.
use telemetrix_db.Base.{ℕ, none, List, [], ◌∷◌}
use telemetrix_db.Gtfs.{
  FieldDescriptor, MessageDescriptor, IntRange, field, range, optional, string, no_target,
  trip_descriptor_modified_trip_selector,
}

-- `transit_realtime__trip_descriptor__modified_trip_selector__field_descriptors`
abbrev pub trip_descriptor_modified_trip_selector_fields : List FieldDescriptor
trip_descriptor_modified_trip_selector_fields =
    field "modifications_id" 1 optional string none "modifications_id" no_target none
    ∷ field "affected_trip_id" 2 optional string none "affected_trip_id" no_target none
    ∷ field "start_time" 3 optional string none "start_time" no_target none
    ∷ field "start_date" 4 optional string none "start_date" no_target none
    ∷ []

-- `transit_realtime__trip_descriptor__modified_trip_selector__field_indices_by_name`
abbrev pub trip_descriptor_modified_trip_selector_indices_by_name : List ℕ
trip_descriptor_modified_trip_selector_indices_by_name = 1 ∷ 0 ∷ 3 ∷ 2 ∷ []

-- `transit_realtime__trip_descriptor__modified_trip_selector__number_ranges`
abbrev pub trip_descriptor_modified_trip_selector_number_ranges : List IntRange
trip_descriptor_modified_trip_selector_number_ranges = range 1 0 ∷ range 0 4 ∷ []

-- `transit_realtime__trip_descriptor__modified_trip_selector__descriptor`
abbrev pub trip_descriptor_modified_trip_selector_descriptor : MessageDescriptor
trip_descriptor_modified_trip_selector_descriptor = record {
  name = "transit_realtime.TripDescriptor.ModifiedTripSelector";
  short_name = "ModifiedTripSelector";
  c_name = "TransitRealtime__TripDescriptor__ModifiedTripSelector";
  package_name = "transit_realtime";
  n_fields = 4;
  fields = trip_descriptor_modified_trip_selector_fields;
  fields_sorted_by_name = trip_descriptor_modified_trip_selector_indices_by_name;
  n_field_ranges = 1;
  field_ranges = trip_descriptor_modified_trip_selector_number_ranges;
  message_init = trip_descriptor_modified_trip_selector;
}
