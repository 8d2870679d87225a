-- ===== src/Gtfs/Enums/TripUpdateStopTimeUpdateStopTimePropertiesDropOffPickupType.antt =====
-- Generated tables of src/ingestion/gtfs-realtime.pb-c.c for the enum
-- trip_update__stop_time_update__stop_time_properties__drop_off_pickup_type.
use telemetrix_db.Base.{List, [], ◌∷◌}
use telemetrix_db.Gtfs.{
  IntRange, EnumValue, EnumValueIndex, EnumDescriptor, range, enum_value, value_index,
}

-- `transit_realtime__trip_update__stop_time_update__stop_time_properties__drop_off_pickup_type__enum_values_by_number`
abbrev pub trip_update_stop_time_update_stop_time_properties_drop_off_pickup_type_values :
    List EnumValue
trip_update_stop_time_update_stop_time_properties_drop_off_pickup_type_values =
    enum_value "REGULAR"
      "TRANSIT_REALTIME__TRIP_UPDATE__STOP_TIME_UPDATE__STOP_TIME_PROPERTIES__DROP_OFF_PICKUP_TYPE__REGULAR"
      0
    ∷ enum_value "NONE"
        "TRANSIT_REALTIME__TRIP_UPDATE__STOP_TIME_UPDATE__STOP_TIME_PROPERTIES__DROP_OFF_PICKUP_TYPE__NONE"
        1
    ∷ enum_value "PHONE_AGENCY"
        "TRANSIT_REALTIME__TRIP_UPDATE__STOP_TIME_UPDATE__STOP_TIME_PROPERTIES__DROP_OFF_PICKUP_TYPE__PHONE_AGENCY"
        2
    ∷ enum_value "COORDINATE_WITH_DRIVER"
        "TRANSIT_REALTIME__TRIP_UPDATE__STOP_TIME_UPDATE__STOP_TIME_PROPERTIES__DROP_OFF_PICKUP_TYPE__COORDINATE_WITH_DRIVER"
        3
    ∷ []

-- `transit_realtime__trip_update__stop_time_update__stop_time_properties__drop_off_pickup_type__enum_values_by_name`
abbrev pub trip_update_stop_time_update_stop_time_properties_drop_off_pickup_type_values_by_name :
    List EnumValueIndex
trip_update_stop_time_update_stop_time_properties_drop_off_pickup_type_values_by_name =
    value_index "COORDINATE_WITH_DRIVER" 3
    ∷ value_index "NONE" 1
    ∷ value_index "PHONE_AGENCY" 2
    ∷ value_index "REGULAR" 0
    ∷ []

-- `transit_realtime__trip_update__stop_time_update__stop_time_properties__drop_off_pickup_type__value_ranges`
abbrev pub trip_update_stop_time_update_stop_time_properties_drop_off_pickup_type_value_ranges :
    List IntRange
trip_update_stop_time_update_stop_time_properties_drop_off_pickup_type_value_ranges =
    range 0 0 ∷ range 0 4 ∷ []

-- `transit_realtime__trip_update__stop_time_update__stop_time_properties__drop_off_pickup_type__descriptor`
abbrev pub trip_update_stop_time_update_stop_time_properties_drop_off_pickup_type_descriptor :
    EnumDescriptor
trip_update_stop_time_update_stop_time_properties_drop_off_pickup_type_descriptor = record {
  name = "transit_realtime.TripUpdate.StopTimeUpdate.StopTimeProperties.DropOffPickupType";
  short_name = "DropOffPickupType";
  c_name = "TransitRealtime__TripUpdate__StopTimeUpdate__StopTimeProperties__DropOffPickupType";
  package_name = "transit_realtime";
  n_values = 4;
  values = trip_update_stop_time_update_stop_time_properties_drop_off_pickup_type_values;
  n_value_names = 4;
  values_by_name =
      trip_update_stop_time_update_stop_time_properties_drop_off_pickup_type_values_by_name;
  n_value_ranges = 1;
  value_ranges =
      trip_update_stop_time_update_stop_time_properties_drop_off_pickup_type_value_ranges;
}
