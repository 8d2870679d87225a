-- ===== src/Gtfs/Enums/AlertSeverityLevel.antt =====
-- Generated tables of src/ingestion/gtfs-realtime.pb-c.c for the enum alert__severity_level.
use telemetrix_db.Base.{List, [], ◌∷◌}
use telemetrix_db.Gtfs.{
  IntRange, EnumValue, EnumValueIndex, EnumDescriptor, range, enum_value, value_index,
}

-- `transit_realtime__alert__severity_level__enum_values_by_number`
abbrev pub alert_severity_level_values : List EnumValue
alert_severity_level_values =
    enum_value "UNKNOWN_SEVERITY" "TRANSIT_REALTIME__ALERT__SEVERITY_LEVEL__UNKNOWN_SEVERITY" 1
    ∷ enum_value "INFO" "TRANSIT_REALTIME__ALERT__SEVERITY_LEVEL__INFO" 2
    ∷ enum_value "WARNING" "TRANSIT_REALTIME__ALERT__SEVERITY_LEVEL__WARNING" 3
    ∷ enum_value "SEVERE" "TRANSIT_REALTIME__ALERT__SEVERITY_LEVEL__SEVERE" 4
    ∷ []

-- `transit_realtime__alert__severity_level__enum_values_by_name`
abbrev pub alert_severity_level_values_by_name : List EnumValueIndex
alert_severity_level_values_by_name =
    value_index "INFO" 1
    ∷ value_index "SEVERE" 3
    ∷ value_index "UNKNOWN_SEVERITY" 0
    ∷ value_index "WARNING" 2
    ∷ []

-- `transit_realtime__alert__severity_level__value_ranges`
abbrev pub alert_severity_level_value_ranges : List IntRange
alert_severity_level_value_ranges = range 1 0 ∷ range 0 4 ∷ []

-- `transit_realtime__alert__severity_level__descriptor`
abbrev pub alert_severity_level_descriptor : EnumDescriptor
alert_severity_level_descriptor = record {
  name = "transit_realtime.Alert.SeverityLevel";
  short_name = "SeverityLevel";
  c_name = "TransitRealtime__Alert__SeverityLevel";
  package_name = "transit_realtime";
  n_values = 4;
  values = alert_severity_level_values;
  n_value_names = 4;
  values_by_name = alert_severity_level_values_by_name;
  n_value_ranges = 1;
  value_ranges = alert_severity_level_value_ranges;
}
