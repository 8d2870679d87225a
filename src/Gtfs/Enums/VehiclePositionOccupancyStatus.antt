-- ===== src/Gtfs/Enums/VehiclePositionOccupancyStatus.antt =====
-- Generated tables of src/ingestion/gtfs-realtime.pb-c.c for the enum
-- vehicle_position__occupancy_status.
use telemetrix_db.Base.{List, [], ◌∷◌}
use telemetrix_db.Gtfs.{
  IntRange, EnumValue, EnumValueIndex, EnumDescriptor, range, enum_value, value_index,
}

-- `transit_realtime__vehicle_position__occupancy_status__enum_values_by_number`
abbrev pub vehicle_position_occupancy_status_values : List EnumValue
vehicle_position_occupancy_status_values =
    enum_value "EMPTY" "TRANSIT_REALTIME__VEHICLE_POSITION__OCCUPANCY_STATUS__EMPTY" 0
    ∷ enum_value "MANY_SEATS_AVAILABLE"
        "TRANSIT_REALTIME__VEHICLE_POSITION__OCCUPANCY_STATUS__MANY_SEATS_AVAILABLE" 1
    ∷ enum_value "FEW_SEATS_AVAILABLE"
        "TRANSIT_REALTIME__VEHICLE_POSITION__OCCUPANCY_STATUS__FEW_SEATS_AVAILABLE" 2
    ∷ enum_value "STANDING_ROOM_ONLY"
        "TRANSIT_REALTIME__VEHICLE_POSITION__OCCUPANCY_STATUS__STANDING_ROOM_ONLY" 3
    ∷ enum_value "CRUSHED_STANDING_ROOM_ONLY"
        "TRANSIT_REALTIME__VEHICLE_POSITION__OCCUPANCY_STATUS__CRUSHED_STANDING_ROOM_ONLY" 4
    ∷ enum_value "FULL" "TRANSIT_REALTIME__VEHICLE_POSITION__OCCUPANCY_STATUS__FULL" 5
    ∷ enum_value "NOT_ACCEPTING_PASSENGERS"
        "TRANSIT_REALTIME__VEHICLE_POSITION__OCCUPANCY_STATUS__NOT_ACCEPTING_PASSENGERS" 6
    ∷ enum_value "NO_DATA_AVAILABLE"
        "TRANSIT_REALTIME__VEHICLE_POSITION__OCCUPANCY_STATUS__NO_DATA_AVAILABLE" 7
    ∷ enum_value "NOT_BOARDABLE"
        "TRANSIT_REALTIME__VEHICLE_POSITION__OCCUPANCY_STATUS__NOT_BOARDABLE" 8
    ∷ []

-- `transit_realtime__vehicle_position__occupancy_status__enum_values_by_name`
abbrev pub vehicle_position_occupancy_status_values_by_name : List EnumValueIndex
vehicle_position_occupancy_status_values_by_name =
    value_index "CRUSHED_STANDING_ROOM_ONLY" 4
    ∷ value_index "EMPTY" 0
    ∷ value_index "FEW_SEATS_AVAILABLE" 2
    ∷ value_index "FULL" 5
    ∷ value_index "MANY_SEATS_AVAILABLE" 1
    ∷ value_index "NOT_ACCEPTING_PASSENGERS" 6
    ∷ value_index "NOT_BOARDABLE" 8
    ∷ value_index "NO_DATA_AVAILABLE" 7
    ∷ value_index "STANDING_ROOM_ONLY" 3
    ∷ []

-- `transit_realtime__vehicle_position__occupancy_status__value_ranges`
abbrev pub vehicle_position_occupancy_status_value_ranges : List IntRange
vehicle_position_occupancy_status_value_ranges = range 0 0 ∷ range 0 9 ∷ []

-- `transit_realtime__vehicle_position__occupancy_status__descriptor`
abbrev pub vehicle_position_occupancy_status_descriptor : EnumDescriptor
vehicle_position_occupancy_status_descriptor = record {
  name = "transit_realtime.VehiclePosition.OccupancyStatus";
  short_name = "OccupancyStatus";
  c_name = "TransitRealtime__VehiclePosition__OccupancyStatus";
  package_name = "transit_realtime";
  n_values = 9;
  values = vehicle_position_occupancy_status_values;
  n_value_names = 9;
  values_by_name = vehicle_position_occupancy_status_values_by_name;
  n_value_ranges = 1;
  value_ranges = vehicle_position_occupancy_status_value_ranges;
}
