-- ===== src/Gtfs/Enums/TripDescriptorScheduleRelationship.antt =====
-- Generated tables of src/ingestion/gtfs-realtime.pb-c.c for the enum
-- trip_descriptor__schedule_relationship.
use telemetrix_db.Base.{List, [], ◌∷◌}
use telemetrix_db.Gtfs.{
  IntRange, EnumValue, EnumValueIndex, EnumDescriptor, range, enum_value, value_index,
}

-- `transit_realtime__trip_descriptor__schedule_relationship__enum_values_by_number`
abbrev pub trip_descriptor_schedule_relationship_values : List EnumValue
trip_descriptor_schedule_relationship_values =
    enum_value "SCHEDULED" "TRANSIT_REALTIME__TRIP_DESCRIPTOR__SCHEDULE_RELATIONSHIP__SCHEDULED" 0
    ∷ enum_value "ADDED" "TRANSIT_REALTIME__TRIP_DESCRIPTOR__SCHEDULE_RELATIONSHIP__ADDED" 1
    ∷ enum_value "UNSCHEDULED"
        "TRANSIT_REALTIME__TRIP_DESCRIPTOR__SCHEDULE_RELATIONSHIP__UNSCHEDULED" 2
    ∷ enum_value "CANCELED" "TRANSIT_REALTIME__TRIP_DESCRIPTOR__SCHEDULE_RELATIONSHIP__CANCELED" 3
    ∷ enum_value "REPLACEMENT"
        "TRANSIT_REALTIME__TRIP_DESCRIPTOR__SCHEDULE_RELATIONSHIP__REPLACEMENT" 5
    ∷ enum_value "DUPLICATED" "TRANSIT_REALTIME__TRIP_DESCRIPTOR__SCHEDULE_RELATIONSHIP__DUPLICATED"
        6
    ∷ enum_value "DELETED" "TRANSIT_REALTIME__TRIP_DESCRIPTOR__SCHEDULE_RELATIONSHIP__DELETED" 7
    ∷ enum_value "NEW" "TRANSIT_REALTIME__TRIP_DESCRIPTOR__SCHEDULE_RELATIONSHIP__NEW" 8
    ∷ []

-- `transit_realtime__trip_descriptor__schedule_relationship__enum_values_by_name`
abbrev pub trip_descriptor_schedule_relationship_values_by_name : List EnumValueIndex
trip_descriptor_schedule_relationship_values_by_name =
    value_index "ADDED" 1
    ∷ value_index "CANCELED" 3
    ∷ value_index "DELETED" 6
    ∷ value_index "DUPLICATED" 5
    ∷ value_index "NEW" 7
    ∷ value_index "REPLACEMENT" 4
    ∷ value_index "SCHEDULED" 0
    ∷ value_index "UNSCHEDULED" 2
    ∷ []

-- `transit_realtime__trip_descriptor__schedule_relationship__value_ranges`
abbrev pub trip_descriptor_schedule_relationship_value_ranges : List IntRange
trip_descriptor_schedule_relationship_value_ranges = range 0 0 ∷ range 5 4 ∷ range 0 8 ∷ []

-- `transit_realtime__trip_descriptor__schedule_relationship__descriptor`
abbrev pub trip_descriptor_schedule_relationship_descriptor : EnumDescriptor
trip_descriptor_schedule_relationship_descriptor = record {
  name = "transit_realtime.TripDescriptor.ScheduleRelationship";
  short_name = "ScheduleRelationship";
  c_name = "TransitRealtime__TripDescriptor__ScheduleRelationship";
  package_name = "transit_realtime";
  n_values = 8;
  values = trip_descriptor_schedule_relationship_values;
  n_value_names = 8;
  values_by_name = trip_descriptor_schedule_relationship_values_by_name;
  n_value_ranges = 2;
  value_ranges = trip_descriptor_schedule_relationship_value_ranges;
}
