-- ===== src/Gtfs/Tables/TimeRange.antt =====
-- Generated tables of src/ingestion/gtfs-realtime.pb-c.c for the message time_range.
use telemetrix_db.Base.{ℕ, none, some, List, [], ◌∷◌}
use telemetrix_db.Gtfs.{
  FieldDescriptor, MessageDescriptor, IntRange, field, range, optional, uint64, no_target,
  time_range,
}

-- `transit_realtime__time_range__field_descriptors`
abbrev pub time_range_fields : List FieldDescriptor
time_range_fields =
    field "start" 1 optional uint64 (some "has_start") "start" no_target none
    ∷ field "end" 2 optional uint64 (some "has_end") "end" no_target none
    ∷ []

-- `transit_realtime__time_range__field_indices_by_name`
abbrev pub time_range_indices_by_name : List ℕ
time_range_indices_by_name = 1 ∷ 0 ∷ []

-- `transit_realtime__time_range__number_ranges`
abbrev pub time_range_number_ranges : List IntRange
time_range_number_ranges = range 1 0 ∷ range 0 2 ∷ []

-- `transit_realtime__time_range__descriptor`
abbrev pub time_range_descriptor : MessageDescriptor
time_range_descriptor = record {
  name = "transit_realtime.TimeRange";
  short_name = "TimeRange";
  c_name = "TransitRealtime__TimeRange";
  package_name = "transit_realtime";
  n_fields = 2;
  fields = time_range_fields;
  fields_sorted_by_name = time_range_indices_by_name;
  n_field_ranges = 1;
  field_ranges = time_range_number_ranges;
  message_init = time_range;
}
