-- ===== src/Gtfs/Enums/VehiclePositionVehicleStopStatus.antt =====
-- Generated tables of src/ingestion/gtfs-realtime.pb-c.c for the enum
-- vehicle_position__vehicle_stop_status.
use telemetrix_db.Base.{List, [], ◌∷◌}
use telemetrix_db.Gtfs.{
  IntRange, EnumValue, EnumValueIndex, EnumDescriptor, range, enum_value, value_index,
}

-- `transit_realtime__vehicle_position__vehicle_stop_status__enum_values_by_number`
abbrev pub vehicle_position_vehicle_stop_status_values : List EnumValue
vehicle_position_vehicle_stop_status_values =
    enum_value "INCOMING_AT" "TRANSIT_REALTIME__VEHICLE_POSITION__VEHICLE_STOP_STATUS__INCOMING_AT"
      0
    ∷ enum_value "STOPPED_AT" "TRANSIT_REALTIME__VEHICLE_POSITION__VEHICLE_STOP_STATUS__STOPPED_AT"
        1
    ∷ enum_value "IN_TRANSIT_TO"
        "TRANSIT_REALTIME__VEHICLE_POSITION__VEHICLE_STOP_STATUS__IN_TRANSIT_TO" 2
    ∷ []

-- `transit_realtime__vehicle_position__vehicle_stop_status__enum_values_by_name`
abbrev pub vehicle_position_vehicle_stop_status_values_by_name : List EnumValueIndex
vehicle_position_vehicle_stop_status_values_by_name =
    value_index "INCOMING_AT" 0 ∷ value_index "IN_TRANSIT_TO" 2 ∷ value_index "STOPPED_AT" 1 ∷ []

-- `transit_realtime__vehicle_position__vehicle_stop_status__value_ranges`
abbrev pub vehicle_position_vehicle_stop_status_value_ranges : List IntRange
vehicle_position_vehicle_stop_status_value_ranges = range 0 0 ∷ range 0 3 ∷ []

-- `transit_realtime__vehicle_position__vehicle_stop_status__descriptor`
abbrev pub vehicle_position_vehicle_stop_status_descriptor : EnumDescriptor
vehicle_position_vehicle_stop_status_descriptor = record {
  name = "transit_realtime.VehiclePosition.VehicleStopStatus";
  short_name = "VehicleStopStatus";
  c_name = "TransitRealtime__VehiclePosition__VehicleStopStatus";
  package_name = "transit_realtime";
  n_values = 3;
  values = vehicle_position_vehicle_stop_status_values;
  n_value_names = 3;
  values_by_name = vehicle_position_vehicle_stop_status_values_by_name;
  n_value_ranges = 1;
  value_ranges = vehicle_position_vehicle_stop_status_value_ranges;
}
