-- ===== src/Gtfs/Tables/Shape.antt =====
-- Generated tables of src/ingestion/gtfs-realtime.pb-c.c for the message shape.
use telemetrix_db.Base.{ℕ, none, List, [], ◌∷◌}
use telemetrix_db.Gtfs.{
  FieldDescriptor, MessageDescriptor, IntRange, field, range, optional, string, no_target, shape,
}

-- `transit_realtime__shape__field_descriptors`
abbrev pub shape_fields : List FieldDescriptor
shape_fields =
    field "shape_id" 1 optional string none "shape_id" no_target none
    ∷ field "encoded_polyline" 2 optional string none "encoded_polyline" no_target none
    ∷ []

-- `transit_realtime__shape__field_indices_by_name`
abbrev pub shape_indices_by_name : List ℕ
shape_indices_by_name = 1 ∷ 0 ∷ []

-- `transit_realtime__shape__number_ranges`
abbrev pub shape_number_ranges : List IntRange
shape_number_ranges = range 1 0 ∷ range 0 2 ∷ []

-- `transit_realtime__shape__descriptor`
abbrev pub shape_descriptor : MessageDescriptor
shape_descriptor = record {
  name = "transit_realtime.Shape";
  short_name = "Shape";
  c_name = "TransitRealtime__Shape";
  package_name = "transit_realtime";
  n_fields = 2;
  fields = shape_fields;
  fields_sorted_by_name = shape_indices_by_name;
  n_field_ranges = 1;
  field_ranges = shape_number_ranges;
  message_init = shape;
}
