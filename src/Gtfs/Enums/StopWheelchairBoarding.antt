-- ===== src/Gtfs/Enums/StopWheelchairBoarding.antt =====
-- Generated tables of src/ingestion/gtfs-realtime.pb-c.c for the enum stop__wheelchair_boarding.
use telemetrix_db.Base.{List, [], ◌∷◌}
use telemetrix_db.Gtfs.{
  IntRange, EnumValue, EnumValueIndex, EnumDescriptor, range, enum_value, value_index,
}

-- `transit_realtime__stop__wheelchair_boarding__enum_values_by_number`
abbrev pub stop_wheelchair_boarding_values : List EnumValue
stop_wheelchair_boarding_values =
    enum_value "UNKNOWN" "TRANSIT_REALTIME__STOP__WHEELCHAIR_BOARDING__UNKNOWN" 0
    ∷ enum_value "AVAILABLE" "TRANSIT_REALTIME__STOP__WHEELCHAIR_BOARDING__AVAILABLE" 1
    ∷ enum_value "NOT_AVAILABLE" "TRANSIT_REALTIME__STOP__WHEELCHAIR_BOARDING__NOT_AVAILABLE" 2
    ∷ []

-- `transit_realtime__stop__wheelchair_boarding__enum_values_by_name`
abbrev pub stop_wheelchair_boarding_values_by_name : List EnumValueIndex
stop_wheelchair_boarding_values_by_name =
    value_index "AVAILABLE" 1 ∷ value_index "NOT_AVAILABLE" 2 ∷ value_index "UNKNOWN" 0 ∷ []

-- `transit_realtime__stop__wheelchair_boarding__value_ranges`
abbrev pub stop_wheelchair_boarding_value_ranges : List IntRange
stop_wheelchair_boarding_value_ranges = range 0 0 ∷ range 0 3 ∷ []

-- `transit_realtime__stop__wheelchair_boarding__descriptor`
abbrev pub stop_wheelchair_boarding_descriptor : EnumDescriptor
stop_wheelchair_boarding_descriptor = record {
  name = "transit_realtime.Stop.WheelchairBoarding";
  short_name = "WheelchairBoarding";
  c_name = "TransitRealtime__Stop__WheelchairBoarding";
  package_name = "transit_realtime";
  n_values = 3;
  values = stop_wheelchair_boarding_values;
  n_value_names = 3;
  values_by_name = stop_wheelchair_boarding_values_by_name;
  n_value_ranges = 1;
  value_ranges = stop_wheelchair_boarding_value_ranges;
}
