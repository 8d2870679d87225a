-- ===== src/Gtfs/Enums/AlertEffect.antt =====
-- Generated tables of src/ingestion/gtfs-realtime.pb-c.c for the enum alert__effect.
use telemetrix_db.Base.{List, [], ◌∷◌}
use telemetrix_db.Gtfs.{
  IntRange, EnumValue, EnumValueIndex, EnumDescriptor, range, enum_value, value_index,
}

-- `transit_realtime__alert__effect__enum_values_by_number`
abbrev pub alert_effect_values : List EnumValue
alert_effect_values =
    enum_value "NO_SERVICE" "TRANSIT_REALTIME__ALERT__EFFECT__NO_SERVICE" 1
    ∷ enum_value "REDUCED_SERVICE" "TRANSIT_REALTIME__ALERT__EFFECT__REDUCED_SERVICE" 2
    ∷ enum_value "SIGNIFICANT_DELAYS" "TRANSIT_REALTIME__ALERT__EFFECT__SIGNIFICANT_DELAYS" 3
    ∷ enum_value "DETOUR" "TRANSIT_REALTIME__ALERT__EFFECT__DETOUR" 4
    ∷ enum_value "ADDITIONAL_SERVICE" "TRANSIT_REALTIME__ALERT__EFFECT__ADDITIONAL_SERVICE" 5
    ∷ enum_value "MODIFIED_SERVICE" "TRANSIT_REALTIME__ALERT__EFFECT__MODIFIED_SERVICE" 6
    ∷ enum_value "OTHER_EFFECT" "TRANSIT_REALTIME__ALERT__EFFECT__OTHER_EFFECT" 7
    ∷ enum_value "UNKNOWN_EFFECT" "TRANSIT_REALTIME__ALERT__EFFECT__UNKNOWN_EFFECT" 8
    ∷ enum_value "STOP_MOVED" "TRANSIT_REALTIME__ALERT__EFFECT__STOP_MOVED" 9
    ∷ enum_value "NO_EFFECT" "TRANSIT_REALTIME__ALERT__EFFECT__NO_EFFECT" 10
    ∷ enum_value "ACCESSIBILITY_ISSUE" "TRANSIT_REALTIME__ALERT__EFFECT__ACCESSIBILITY_ISSUE" 11
    ∷ []

-- `transit_realtime__alert__effect__enum_values_by_name`
abbrev pub alert_effect_values_by_name : List EnumValueIndex
alert_effect_values_by_name =
    value_index "ACCESSIBILITY_ISSUE" 10
    ∷ value_index "ADDITIONAL_SERVICE" 4
    ∷ value_index "DETOUR" 3
    ∷ value_index "MODIFIED_SERVICE" 5
    ∷ value_index "NO_EFFECT" 9
    ∷ value_index "NO_SERVICE" 0
    ∷ value_index "OTHER_EFFECT" 6
    ∷ value_index "REDUCED_SERVICE" 1
    ∷ value_index "SIGNIFICANT_DELAYS" 2
    ∷ value_index "STOP_MOVED" 8
    ∷ value_index "UNKNOWN_EFFECT" 7
    ∷ []

-- `transit_realtime__alert__effect__value_ranges`
abbrev pub alert_effect_value_ranges : List IntRange
alert_effect_value_ranges = range 1 0 ∷ range 0 11 ∷ []

-- `transit_realtime__alert__effect__descriptor`
abbrev pub alert_effect_descriptor : EnumDescriptor
alert_effect_descriptor = record {
  name = "transit_realtime.Alert.Effect";
  short_name = "Effect";
  c_name = "TransitRealtime__Alert__Effect";
  package_name = "transit_realtime";
  n_values = 11;
  values = alert_effect_values;
  n_value_names = 11;
  values_by_name = alert_effect_values_by_name;
  n_value_ranges = 1;
  value_ranges = alert_effect_value_ranges;
}
