-- ===== src/Gtfs/Enums/VehiclePositionCongestionLevel.antt =====
-- Generated tables of src/ingestion/gtfs-realtime.pb-c.c for the enum
-- vehicle_position__congestion_level.
use telemetrix_db.Base.{List, [], ◌∷◌}
use telemetrix_db.Gtfs.{
  IntRange, EnumValue, EnumValueIndex, EnumDescriptor, range, enum_value, value_index,
}

-- `transit_realtime__vehicle_position__congestion_level__enum_values_by_number`
abbrev pub vehicle_position_congestion_level_values : List EnumValue
vehicle_position_congestion_level_values =
    enum_value "UNKNOWN_CONGESTION_LEVEL"
      "TRANSIT_REALTIME__VEHICLE_POSITION__CONGESTION_LEVEL__UNKNOWN_CONGESTION_LEVEL" 0
    ∷ enum_value "RUNNING_SMOOTHLY"
        "TRANSIT_REALTIME__VEHICLE_POSITION__CONGESTION_LEVEL__RUNNING_SMOOTHLY" 1
    ∷ enum_value "STOP_AND_GO" "TRANSIT_REALTIME__VEHICLE_POSITION__CONGESTION_LEVEL__STOP_AND_GO" 2
    ∷ enum_value "CONGESTION" "TRANSIT_REALTIME__VEHICLE_POSITION__CONGESTION_LEVEL__CONGESTION" 3
    ∷ enum_value "SEVERE_CONGESTION"
        "TRANSIT_REALTIME__VEHICLE_POSITION__CONGESTION_LEVEL__SEVERE_CONGESTION" 4
    ∷ []

-- `transit_realtime__vehicle_position__congestion_level__enum_values_by_name`
abbrev pub vehicle_position_congestion_level_values_by_name : List EnumValueIndex
vehicle_position_congestion_level_values_by_name =
    value_index "CONGESTION" 3
    ∷ value_index "RUNNING_SMOOTHLY" 1
    ∷ value_index "SEVERE_CONGESTION" 4
    ∷ value_index "STOP_AND_GO" 2
    ∷ value_index "UNKNOWN_CONGESTION_LEVEL" 0
    ∷ []

-- `transit_realtime__vehicle_position__congestion_level__value_ranges`
abbrev pub vehicle_position_congestion_level_value_ranges : List IntRange
vehicle_position_congestion_level_value_ranges = range 0 0 ∷ range 0 5 ∷ []

-- `transit_realtime__vehicle_position__congestion_level__descriptor`
abbrev pub vehicle_position_congestion_level_descriptor : EnumDescriptor
vehicle_position_congestion_level_descriptor = record {
  name = "transit_realtime.VehiclePosition.CongestionLevel";
  short_name = "CongestionLevel";
  c_name = "TransitRealtime__VehiclePosition__CongestionLevel";
  package_name = "transit_realtime";
  n_values = 5;
  values = vehicle_position_congestion_level_values;
  n_value_names = 5;
  values_by_name = vehicle_position_congestion_level_values_by_name;
  n_value_ranges = 1;
  value_ranges = vehicle_position_congestion_level_value_ranges;
}
