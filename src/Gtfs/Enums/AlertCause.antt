-- ===== src/Gtfs/Enums/AlertCause.antt =====
-- Generated tables of src/ingestion/gtfs-realtime.pb-c.c for the enum alert__cause.
use telemetrix_db.Base.{List, [], ◌∷◌}
use telemetrix_db.Gtfs.{
  IntRange, EnumValue, EnumValueIndex, EnumDescriptor, range, enum_value, value_index,
}

-- `transit_realtime__alert__cause__enum_values_by_number`
abbrev pub alert_cause_values : List EnumValue
alert_cause_values =
    enum_value "UNKNOWN_CAUSE" "TRANSIT_REALTIME__ALERT__CAUSE__UNKNOWN_CAUSE" 1
    ∷ enum_value "OTHER_CAUSE" "TRANSIT_REALTIME__ALERT__CAUSE__OTHER_CAUSE" 2
    ∷ enum_value "TECHNICAL_PROBLEM" "TRANSIT_REALTIME__ALERT__CAUSE__TECHNICAL_PROBLEM" 3
    ∷ enum_value "STRIKE" "TRANSIT_REALTIME__ALERT__CAUSE__STRIKE" 4
    ∷ enum_value "DEMONSTRATION" "TRANSIT_REALTIME__ALERT__CAUSE__DEMONSTRATION" 5
    ∷ enum_value "ACCIDENT" "TRANSIT_REALTIME__ALERT__CAUSE__ACCIDENT" 6
    ∷ enum_value "HOLIDAY" "TRANSIT_REALTIME__ALERT__CAUSE__HOLIDAY" 7
    ∷ enum_value "WEATHER" "TRANSIT_REALTIME__ALERT__CAUSE__WEATHER" 8
    ∷ enum_value "MAINTENANCE" "TRANSIT_REALTIME__ALERT__CAUSE__MAINTENANCE" 9
    ∷ enum_value "CONSTRUCTION" "TRANSIT_REALTIME__ALERT__CAUSE__CONSTRUCTION" 10
    ∷ enum_value "POLICE_ACTIVITY" "TRANSIT_REALTIME__ALERT__CAUSE__POLICE_ACTIVITY" 11
    ∷ enum_value "MEDICAL_EMERGENCY" "TRANSIT_REALTIME__ALERT__CAUSE__MEDICAL_EMERGENCY" 12
    ∷ []

-- `transit_realtime__alert__cause__enum_values_by_name`
abbrev pub alert_cause_values_by_name : List EnumValueIndex
alert_cause_values_by_name =
    value_index "ACCIDENT" 5
    ∷ value_index "CONSTRUCTION" 9
    ∷ value_index "DEMONSTRATION" 4
    ∷ value_index "HOLIDAY" 6
    ∷ value_index "MAINTENANCE" 8
    ∷ value_index "MEDICAL_EMERGENCY" 11
    ∷ value_index "OTHER_CAUSE" 1
    ∷ value_index "POLICE_ACTIVITY" 10
    ∷ value_index "STRIKE" 3
    ∷ value_index "TECHNICAL_PROBLEM" 2
    ∷ value_index "UNKNOWN_CAUSE" 0
    ∷ value_index "WEATHER" 7
    ∷ []

-- `transit_realtime__alert__cause__value_ranges`
abbrev pub alert_cause_value_ranges : List IntRange
alert_cause_value_ranges = range 1 0 ∷ range 0 12 ∷ []

-- `transit_realtime__alert__cause__descriptor`
abbrev pub alert_cause_descriptor : EnumDescriptor
alert_cause_descriptor = record {
  name = "transit_realtime.Alert.Cause";
  short_name = "Cause";
  c_name = "TransitRealtime__Alert__Cause";
  package_name = "transit_realtime";
  n_values = 12;
  values = alert_cause_values;
  n_value_names = 12;
  values_by_name = alert_cause_values_by_name;
  n_value_ranges = 1;
  value_ranges = alert_cause_value_ranges;
}
