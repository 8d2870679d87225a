-- ===== src/Gtfs/Tables/StopSelector.antt =====
-- Generated tables of src/ingestion/gtfs-realtime.pb-c.c for the message stop_selector.
use telemetrix_db.Base.{ℕ, none, some, List, [], ◌∷◌}
use telemetrix_db.Gtfs.{
  FieldDescriptor, MessageDescriptor, IntRange, field, range, optional, string, uint32, no_target,
  stop_selector,
}

-- `transit_realtime__stop_selector__field_descriptors`
abbrev pub stop_selector_fields : List FieldDescriptor
stop_selector_fields =
    field "stop_sequence" 1 optional uint32 (some "has_stop_sequence") "stop_sequence" no_target
      none
    ∷ field "stop_id" 2 optional string none "stop_id" no_target none
    ∷ []

-- `transit_realtime__stop_selector__field_indices_by_name`
abbrev pub stop_selector_indices_by_name : List ℕ
stop_selector_indices_by_name = 1 ∷ 0 ∷ []

-- `transit_realtime__stop_selector__number_ranges`
abbrev pub stop_selector_number_ranges : List IntRange
stop_selector_number_ranges = range 1 0 ∷ range 0 2 ∷ []

-- `transit_realtime__stop_selector__descriptor`
abbrev pub stop_selector_descriptor : MessageDescriptor
stop_selector_descriptor = record {
  name = "transit_realtime.StopSelector";
  short_name = "StopSelector";
  c_name = "TransitRealtime__StopSelector";
  package_name = "transit_realtime";
  n_fields = 2;
  fields = stop_selector_fields;
  fields_sorted_by_name = stop_selector_indices_by_name;
  n_field_ranges = 1;
  field_ranges = stop_selector_number_ranges;
  message_init = stop_selector;
}
