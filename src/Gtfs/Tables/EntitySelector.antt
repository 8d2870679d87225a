-- ===== src/Gtfs/Tables/EntitySelector.antt =====
-- Generated tables of src/ingestion/gtfs-realtime.pb-c.c for the message entity_selector.
use telemetrix_db.Base.{ℕ, none, some, List, [], ◌∷◌}
use telemetrix_db.Gtfs.{
  FieldDescriptor, MessageDescriptor, IntRange, field, range, optional, int32, message, string,
  uint32, no_target, to_message, entity_selector, trip_descriptor,
}

-- `transit_realtime__entity_selector__field_descriptors`
abbrev pub entity_selector_fields : List FieldDescriptor
entity_selector_fields =
    field "agency_id" 1 optional string none "agency_id" no_target none
    ∷ field "route_id" 2 optional string none "route_id" no_target none
    ∷ field "route_type" 3 optional int32 (some "has_route_type") "route_type" no_target none
    ∷ field "trip" 4 optional message none "trip" (to_message trip_descriptor) none
    ∷ field "stop_id" 5 optional string none "stop_id" no_target none
    ∷ field "direction_id" 6 optional uint32 (some "has_direction_id") "direction_id" no_target none
    ∷ []

-- `transit_realtime__entity_selector__field_indices_by_name`
abbrev pub entity_selector_indices_by_name : List ℕ
entity_selector_indices_by_name = 0 ∷ 5 ∷ 1 ∷ 2 ∷ 4 ∷ 3 ∷ []

-- `transit_realtime__entity_selector__number_ranges`
abbrev pub entity_selector_number_ranges : List IntRange
entity_selector_number_ranges = range 1 0 ∷ range 0 6 ∷ []

-- `transit_realtime__entity_selector__descriptor`
abbrev pub entity_selector_descriptor : MessageDescriptor
entity_selector_descriptor = record {
  name = "transit_realtime.EntitySelector";
  short_name = "EntitySelector";
  c_name = "TransitRealtime__EntitySelector";
  package_name = "transit_realtime";
  n_fields = 6;
  fields = entity_selector_fields;
  fields_sorted_by_name = entity_selector_indices_by_name;
  n_field_ranges = 1;
  field_ranges = entity_selector_number_ranges;
  message_init = entity_selector;
}
