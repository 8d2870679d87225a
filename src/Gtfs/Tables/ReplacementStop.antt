-- ===== src/Gtfs/Tables/ReplacementStop.antt =====
-- Generated tables of src/ingestion/gtfs-realtime.pb-c.c for the message replacement_stop.
use telemetrix_db.Base.{ℕ, none, some, List, [], ◌∷◌}
use telemetrix_db.Gtfs.{
  FieldDescriptor, MessageDescriptor, IntRange, field, range, optional, int32, string, no_target,
  replacement_stop,
}

-- `transit_realtime__replacement_stop__field_descriptors`
abbrev pub replacement_stop_fields : List FieldDescriptor
replacement_stop_fields =
    field "travel_time_to_stop" 1 optional int32 (some "has_travel_time_to_stop")
      "travel_time_to_stop" no_target none
    ∷ field "stop_id" 2 optional string none "stop_id" no_target none
    ∷ []

-- `transit_realtime__replacement_stop__field_indices_by_name`
abbrev pub replacement_stop_indices_by_name : List ℕ
replacement_stop_indices_by_name = 1 ∷ 0 ∷ []

-- `transit_realtime__replacement_stop__number_ranges`
abbrev pub replacement_stop_number_ranges : List IntRange
replacement_stop_number_ranges = range 1 0 ∷ range 0 2 ∷ []

-- `transit_realtime__replacement_stop__descriptor`
abbrev pub replacement_stop_descriptor : MessageDescriptor
replacement_stop_descriptor = record {
  name = "transit_realtime.ReplacementStop";
  short_name = "ReplacementStop";
  c_name = "TransitRealtime__ReplacementStop";
  package_name = "transit_realtime";
  n_fields = 2;
  fields = replacement_stop_fields;
  fields_sorted_by_name = replacement_stop_indices_by_name;
  n_field_ranges = 1;
  field_ranges = replacement_stop_number_ranges;
  message_init = replacement_stop;
}
