-- ===== src/Gtfs/Enums/TripUpdateStopTimeUpdateScheduleRelationship.antt =====
-- Generated tables of src/ingestion/gtfs-realtime.pb-c.c for the enum
-- trip_update__stop_time_update__schedule_relationship.
use telemetrix_db.Base.{List, [], ◌∷◌}
use telemetrix_db.Gtfs.{
  IntRange, EnumValue, EnumValueIndex, EnumDescriptor, range, enum_value, value_index,
}

-- `transit_realtime__trip_update__stop_time_update__schedule_relationship__enum_values_by_number`
abbrev pub trip_update_stop_time_update_schedule_relationship_values : List EnumValue
trip_update_stop_time_update_schedule_relationship_values =
    enum_value "SCHEDULED"
      "TRANSIT_REALTIME__TRIP_UPDATE__STOP_TIME_UPDATE__SCHEDULE_RELATIONSHIP__SCHEDULED" 0
    ∷ enum_value "SKIPPED"
        "TRANSIT_REALTIME__TRIP_UPDATE__STOP_TIME_UPDATE__SCHEDULE_RELATIONSHIP__SKIPPED" 1
    ∷ enum_value "NO_DATA"
        "TRANSIT_REALTIME__TRIP_UPDATE__STOP_TIME_UPDATE__SCHEDULE_RELATIONSHIP__NO_DATA" 2
    ∷ enum_value "UNSCHEDULED"
        "TRANSIT_REALTIME__TRIP_UPDATE__STOP_TIME_UPDATE__SCHEDULE_RELATIONSHIP__UNSCHEDULED" 3
    ∷ []

-- `transit_realtime__trip_update__stop_time_update__schedule_relationship__enum_values_by_name`
abbrev pub trip_update_stop_time_update_schedule_relationship_values_by_name : List EnumValueIndex
trip_update_stop_time_update_schedule_relationship_values_by_name =
    value_index "NO_DATA" 2
    ∷ value_index "SCHEDULED" 0
    ∷ value_index "SKIPPED" 1
    ∷ value_index "UNSCHEDULED" 3
    ∷ []

-- `transit_realtime__trip_update__stop_time_update__schedule_relationship__value_ranges`
abbrev pub trip_update_stop_time_update_schedule_relationship_value_ranges : List IntRange
trip_update_stop_time_update_schedule_relationship_value_ranges = range 0 0 ∷ range 0 4 ∷ []

-- `transit_realtime__trip_update__stop_time_update__schedule_relationship__descriptor`
abbrev pub trip_update_stop_time_update_schedule_relationship_descriptor : EnumDescriptor
trip_update_stop_time_update_schedule_relationship_descriptor = record {
  name = "transit_realtime.TripUpdate.StopTimeUpdate.ScheduleRelationship";
  short_name = "ScheduleRelationship";
  c_name = "TransitRealtime__TripUpdate__StopTimeUpdate__ScheduleRelationship";
  package_name = "transit_realtime";
  n_values = 4;
  values = trip_update_stop_time_update_schedule_relationship_values;
  n_value_names = 4;
  values_by_name = trip_update_stop_time_update_schedule_relationship_values_by_name;
  n_value_ranges = 1;
  value_ranges = trip_update_stop_time_update_schedule_relationship_value_ranges;
}
