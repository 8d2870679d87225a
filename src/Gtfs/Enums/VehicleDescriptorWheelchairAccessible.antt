-- ===== src/Gtfs/Enums/VehicleDescriptorWheelchairAccessible.antt =====
-- Generated tables of src/ingestion/gtfs-realtime.pb-c.c for the enum
-- vehicle_descriptor__wheelchair_accessible.
use telemetrix_db.Base.{List, [], ◌∷◌}
use telemetrix_db.Gtfs.{
  IntRange, EnumValue, EnumValueIndex, EnumDescriptor, range, enum_value, value_index,
}

-- `transit_realtime__vehicle_descriptor__wheelchair_accessible__enum_values_by_number`
abbrev pub vehicle_descriptor_wheelchair_accessible_values : List EnumValue
vehicle_descriptor_wheelchair_accessible_values =
    enum_value "NO_VALUE" "TRANSIT_REALTIME__VEHICLE_DESCRIPTOR__WHEELCHAIR_ACCESSIBLE__NO_VALUE" 0
    ∷ enum_value "UNKNOWN" "TRANSIT_REALTIME__VEHICLE_DESCRIPTOR__WHEELCHAIR_ACCESSIBLE__UNKNOWN" 1
    ∷ enum_value "WHEELCHAIR_ACCESSIBLE"
        "TRANSIT_REALTIME__VEHICLE_DESCRIPTOR__WHEELCHAIR_ACCESSIBLE__WHEELCHAIR_ACCESSIBLE" 2
    ∷ enum_value "WHEELCHAIR_INACCESSIBLE"
        "TRANSIT_REALTIME__VEHICLE_DESCRIPTOR__WHEELCHAIR_ACCESSIBLE__WHEELCHAIR_INACCESSIBLE" 3
    ∷ []

-- `transit_realtime__vehicle_descriptor__wheelchair_accessible__enum_values_by_name`
abbrev pub vehicle_descriptor_wheelchair_accessible_values_by_name : List EnumValueIndex
vehicle_descriptor_wheelchair_accessible_values_by_name =
    value_index "NO_VALUE" 0
    ∷ value_index "UNKNOWN" 1
    ∷ value_index "WHEELCHAIR_ACCESSIBLE" 2
    ∷ value_index "WHEELCHAIR_INACCESSIBLE" 3
    ∷ []

-- `transit_realtime__vehicle_descriptor__wheelchair_accessible__value_ranges`
abbrev pub vehicle_descriptor_wheelchair_accessible_value_ranges : List IntRange
vehicle_descriptor_wheelchair_accessible_value_ranges = range 0 0 ∷ range 0 4 ∷ []

-- `transit_realtime__vehicle_descriptor__wheelchair_accessible__descriptor`
abbrev pub vehicle_descriptor_wheelchair_accessible_descriptor : EnumDescriptor
vehicle_descriptor_wheelchair_accessible_descriptor = record {
  name = "transit_realtime.VehicleDescriptor.WheelchairAccessible";
  short_name = "WheelchairAccessible";
  c_name = "TransitRealtime__VehicleDescriptor__WheelchairAccessible";
  package_name = "transit_realtime";
  n_values = 4;
  values = vehicle_descriptor_wheelchair_accessible_values;
  n_value_names = 4;
  values_by_name = vehicle_descriptor_wheelchair_accessible_values_by_name;
  n_value_ranges = 1;
  value_ranges = vehicle_descriptor_wheelchair_accessible_value_ranges;
}
