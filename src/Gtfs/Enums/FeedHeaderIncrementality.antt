-- ===== src/Gtfs/Enums/FeedHeaderIncrementality.antt =====
-- Generated tables of src/ingestion/gtfs-realtime.pb-c.c for the enum feed_header__incrementality.
use telemetrix_db.Base.{List, [], ◌∷◌}
use telemetrix_db.Gtfs.{
  IntRange, EnumValue, EnumValueIndex, EnumDescriptor, range, enum_value, value_index,
}

-- `transit_realtime__feed_header__incrementality__enum_values_by_number`
abbrev pub feed_header_incrementality_values : List EnumValue
feed_header_incrementality_values =
    enum_value "FULL_DATASET" "TRANSIT_REALTIME__FEED_HEADER__INCREMENTALITY__FULL_DATASET" 0
    ∷ enum_value "DIFFERENTIAL" "TRANSIT_REALTIME__FEED_HEADER__INCREMENTALITY__DIFFERENTIAL" 1
    ∷ []

-- `transit_realtime__feed_header__incrementality__enum_values_by_name`
abbrev pub feed_header_incrementality_values_by_name : List EnumValueIndex
feed_header_incrementality_values_by_name =
    value_index "DIFFERENTIAL" 1 ∷ value_index "FULL_DATASET" 0 ∷ []

-- `transit_realtime__feed_header__incrementality__value_ranges`
abbrev pub feed_header_incrementality_value_ranges : List IntRange
feed_header_incrementality_value_ranges = range 0 0 ∷ range 0 2 ∷ []

-- `transit_realtime__feed_header__incrementality__descriptor`
abbrev pub feed_header_incrementality_descriptor : EnumDescriptor
feed_header_incrementality_descriptor = record {
  name = "transit_realtime.FeedHeader.Incrementality";
  short_name = "Incrementality";
  c_name = "TransitRealtime__FeedHeader__Incrementality";
  package_name = "transit_realtime";
  n_values = 2;
  values = feed_header_incrementality_values;
  n_value_names = 2;
  values_by_name = feed_header_incrementality_values_by_name;
  n_value_ranges = 1;
  value_ranges = feed_header_incrementality_value_ranges;
}
