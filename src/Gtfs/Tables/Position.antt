-- ===== src/Gtfs/Tables/Position.antt =====
-- Generated tables of src/ingestion/gtfs-realtime.pb-c.c for the message position.
use telemetrix_db.Base.{ℕ, none, some, List, [], ◌∷◌}
use telemetrix_db.Gtfs.{
  FieldDescriptor, MessageDescriptor, IntRange, field, range, required, optional, double, float,
  no_target, position,
}

-- `transit_realtime__position__field_descriptors`
abbrev pub position_fields : List FieldDescriptor
position_fields =
    field "latitude" 1 required float none "latitude" no_target none
    ∷ field "longitude" 2 required float none "longitude" no_target none
    ∷ field "bearing" 3 optional float (some "has_bearing") "bearing" no_target none
    ∷ field "odometer" 4 optional double (some "has_odometer") "odometer" no_target none
    ∷ field "speed" 5 optional float (some "has_speed") "speed" no_target none
    ∷ []

-- `transit_realtime__position__field_indices_by_name`
abbrev pub position_indices_by_name : List ℕ
position_indices_by_name = 2 ∷ 0 ∷ 1 ∷ 3 ∷ 4 ∷ []

-- `transit_realtime__position__number_ranges`
abbrev pub position_number_ranges : List IntRange
position_number_ranges = range 1 0 ∷ range 0 5 ∷ []

-- `transit_realtime__position__descriptor`
abbrev pub position_descriptor : MessageDescriptor
position_descriptor = record {
  name = "transit_realtime.Position";
  short_name = "Position";
  c_name = "TransitRealtime__Position";
  package_name = "transit_realtime";
  n_fields = 5;
  fields = position_fields;
  fields_sorted_by_name = position_indices_by_name;
  n_field_ranges = 1;
  field_ranges = position_number_ranges;
  message_init = position;
}
