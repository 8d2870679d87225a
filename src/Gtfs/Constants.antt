-- ===== src/Gtfs/Constants.antt =====
-- The enums of include/gtfs-realtime.pb-c.h: their constants, in order.
use telemetrix_db.Base.{ℕ, String, List, [], ◌∷◌}
use telemetrix_db.Gtfs.{EnumType}

-- `TransitRealtime__FeedHeader__Incrementality`
abbrev pub feed_header_incrementality_constants : List (String × ℕ)
feed_header_incrementality_constants =
    ("TRANSIT_REALTIME__FEED_HEADER__INCREMENTALITY__FULL_DATASET", 0)
    ∷ ("TRANSIT_REALTIME__FEED_HEADER__INCREMENTALITY__DIFFERENTIAL", 1)
    ∷ []

-- `TransitRealtime__TripUpdate__StopTimeUpdate__StopTimeProperties__DropOffPickupType`
abbrev pub trip_update_stop_time_update_stop_time_properties_drop_off_pickup_type_constants :
    List (String × ℕ)
trip_update_stop_time_update_stop_time_properties_drop_off_pickup_type_constants =
    (
      "TRANSIT_REALTIME__TRIP_UPDATE__STOP_TIME_UPDATE__STOP_TIME_PROPERTIES__DROP_OFF_PICKUP_TYPE__REGULAR",
      0,
    )
    ∷ (
      "TRANSIT_REALTIME__TRIP_UPDATE__STOP_TIME_UPDATE__STOP_TIME_PROPERTIES__DROP_OFF_PICKUP_TYPE__NONE",
      1,
    )
    ∷ (
      "TRANSIT_REALTIME__TRIP_UPDATE__STOP_TIME_UPDATE__STOP_TIME_PROPERTIES__DROP_OFF_PICKUP_TYPE__PHONE_AGENCY",
      2,
    )
    ∷ (
      "TRANSIT_REALTIME__TRIP_UPDATE__STOP_TIME_UPDATE__STOP_TIME_PROPERTIES__DROP_OFF_PICKUP_TYPE__COORDINATE_WITH_DRIVER",
      3,
    )
    ∷ []

-- `TransitRealtime__TripUpdate__StopTimeUpdate__ScheduleRelationship`
abbrev pub trip_update_stop_time_update_schedule_relationship_constants : List (String × ℕ)
trip_update_stop_time_update_schedule_relationship_constants =
    ("TRANSIT_REALTIME__TRIP_UPDATE__STOP_TIME_UPDATE__SCHEDULE_RELATIONSHIP__SCHEDULED", 0)
    ∷ ("TRANSIT_REALTIME__TRIP_UPDATE__STOP_TIME_UPDATE__SCHEDULE_RELATIONSHIP__SKIPPED", 1)
    ∷ ("TRANSIT_REALTIME__TRIP_UPDATE__STOP_TIME_UPDATE__SCHEDULE_RELATIONSHIP__NO_DATA", 2)
    ∷ ("TRANSIT_REALTIME__TRIP_UPDATE__STOP_TIME_UPDATE__SCHEDULE_RELATIONSHIP__UNSCHEDULED", 3)
    ∷ []

-- `TransitRealtime__VehiclePosition__VehicleStopStatus`
abbrev pub vehicle_position_vehicle_stop_status_constants : List (String × ℕ)
vehicle_position_vehicle_stop_status_constants =
    ("TRANSIT_REALTIME__VEHICLE_POSITION__VEHICLE_STOP_STATUS__INCOMING_AT", 0)
    ∷ ("TRANSIT_REALTIME__VEHICLE_POSITION__VEHICLE_STOP_STATUS__STOPPED_AT", 1)
    ∷ ("TRANSIT_REALTIME__VEHICLE_POSITION__VEHICLE_STOP_STATUS__IN_TRANSIT_TO", 2)
    ∷ []

-- `TransitRealtime__VehiclePosition__CongestionLevel`
abbrev pub vehicle_position_congestion_level_constants : List (String × ℕ)
vehicle_position_congestion_level_constants =
    ("TRANSIT_REALTIME__VEHICLE_POSITION__CONGESTION_LEVEL__UNKNOWN_CONGESTION_LEVEL", 0)
    ∷ ("TRANSIT_REALTIME__VEHICLE_POSITION__CONGESTION_LEVEL__RUNNING_SMOOTHLY", 1)
    ∷ ("TRANSIT_REALTIME__VEHICLE_POSITION__CONGESTION_LEVEL__STOP_AND_GO", 2)
    ∷ ("TRANSIT_REALTIME__VEHICLE_POSITION__CONGESTION_LEVEL__CONGESTION", 3)
    ∷ ("TRANSIT_REALTIME__VEHICLE_POSITION__CONGESTION_LEVEL__SEVERE_CONGESTION", 4)
    ∷ []

-- `TransitRealtime__VehiclePosition__OccupancyStatus`
abbrev pub vehicle_position_occupancy_status_constants : List (String × ℕ)
vehicle_position_occupancy_status_constants =
    ("TRANSIT_REALTIME__VEHICLE_POSITION__OCCUPANCY_STATUS__EMPTY", 0)
    ∷ ("TRANSIT_REALTIME__VEHICLE_POSITION__OCCUPANCY_STATUS__MANY_SEATS_AVAILABLE", 1)
    ∷ ("TRANSIT_REALTIME__VEHICLE_POSITION__OCCUPANCY_STATUS__FEW_SEATS_AVAILABLE", 2)
    ∷ ("TRANSIT_REALTIME__VEHICLE_POSITION__OCCUPANCY_STATUS__STANDING_ROOM_ONLY", 3)
    ∷ ("TRANSIT_REALTIME__VEHICLE_POSITION__OCCUPANCY_STATUS__CRUSHED_STANDING_ROOM_ONLY", 4)
    ∷ ("TRANSIT_REALTIME__VEHICLE_POSITION__OCCUPANCY_STATUS__FULL", 5)
    ∷ ("TRANSIT_REALTIME__VEHICLE_POSITION__OCCUPANCY_STATUS__NOT_ACCEPTING_PASSENGERS", 6)
    ∷ ("TRANSIT_REALTIME__VEHICLE_POSITION__OCCUPANCY_STATUS__NO_DATA_AVAILABLE", 7)
    ∷ ("TRANSIT_REALTIME__VEHICLE_POSITION__OCCUPANCY_STATUS__NOT_BOARDABLE", 8)
    ∷ []

-- `TransitRealtime__Alert__Cause`
abbrev pub alert_cause_constants : List (String × ℕ)
alert_cause_constants =
    ("TRANSIT_REALTIME__ALERT__CAUSE__UNKNOWN_CAUSE", 1)
    ∷ ("TRANSIT_REALTIME__ALERT__CAUSE__OTHER_CAUSE", 2)
    ∷ ("TRANSIT_REALTIME__ALERT__CAUSE__TECHNICAL_PROBLEM", 3)
    ∷ ("TRANSIT_REALTIME__ALERT__CAUSE__STRIKE", 4)
    ∷ ("TRANSIT_REALTIME__ALERT__CAUSE__DEMONSTRATION", 5)
    ∷ ("TRANSIT_REALTIME__ALERT__CAUSE__ACCIDENT", 6)
    ∷ ("TRANSIT_REALTIME__ALERT__CAUSE__HOLIDAY", 7)
    ∷ ("TRANSIT_REALTIME__ALERT__CAUSE__WEATHER", 8)
    ∷ ("TRANSIT_REALTIME__ALERT__CAUSE__MAINTENANCE", 9)
    ∷ ("TRANSIT_REALTIME__ALERT__CAUSE__CONSTRUCTION", 10)
    ∷ ("TRANSIT_REALTIME__ALERT__CAUSE__POLICE_ACTIVITY", 11)
    ∷ ("TRANSIT_REALTIME__ALERT__CAUSE__MEDICAL_EMERGENCY", 12)
    ∷ []

-- `TransitRealtime__Alert__Effect`
abbrev pub alert_effect_constants : List (String × ℕ)
alert_effect_constants =
    ("TRANSIT_REALTIME__ALERT__EFFECT__NO_SERVICE", 1)
    ∷ ("TRANSIT_REALTIME__ALERT__EFFECT__REDUCED_SERVICE", 2)
    ∷ ("TRANSIT_REALTIME__ALERT__EFFECT__SIGNIFICANT_DELAYS", 3)
    ∷ ("TRANSIT_REALTIME__ALERT__EFFECT__DETOUR", 4)
    ∷ ("TRANSIT_REALTIME__ALERT__EFFECT__ADDITIONAL_SERVICE", 5)
    ∷ ("TRANSIT_REALTIME__ALERT__EFFECT__MODIFIED_SERVICE", 6)
    ∷ ("TRANSIT_REALTIME__ALERT__EFFECT__OTHER_EFFECT", 7)
    ∷ ("TRANSIT_REALTIME__ALERT__EFFECT__UNKNOWN_EFFECT", 8)
    ∷ ("TRANSIT_REALTIME__ALERT__EFFECT__STOP_MOVED", 9)
    ∷ ("TRANSIT_REALTIME__ALERT__EFFECT__NO_EFFECT", 10)
    ∷ ("TRANSIT_REALTIME__ALERT__EFFECT__ACCESSIBILITY_ISSUE", 11)
    ∷ []

-- `TransitRealtime__Alert__SeverityLevel`
abbrev pub alert_severity_level_constants : List (String × ℕ)
alert_severity_level_constants =
    ("TRANSIT_REALTIME__ALERT__SEVERITY_LEVEL__UNKNOWN_SEVERITY", 1)
    ∷ ("TRANSIT_REALTIME__ALERT__SEVERITY_LEVEL__INFO", 2)
    ∷ ("TRANSIT_REALTIME__ALERT__SEVERITY_LEVEL__WARNING", 3)
    ∷ ("TRANSIT_REALTIME__ALERT__SEVERITY_LEVEL__SEVERE", 4)
    ∷ []

-- `TransitRealtime__TripDescriptor__ScheduleRelationship`
abbrev pub trip_descriptor_schedule_relationship_constants : List (String × ℕ)
trip_descriptor_schedule_relationship_constants =
    ("TRANSIT_REALTIME__TRIP_DESCRIPTOR__SCHEDULE_RELATIONSHIP__SCHEDULED", 0)
    ∷ ("TRANSIT_REALTIME__TRIP_DESCRIPTOR__SCHEDULE_RELATIONSHIP__ADDED", 1)
    ∷ ("TRANSIT_REALTIME__TRIP_DESCRIPTOR__SCHEDULE_RELATIONSHIP__UNSCHEDULED", 2)
    ∷ ("TRANSIT_REALTIME__TRIP_DESCRIPTOR__SCHEDULE_RELATIONSHIP__CANCELED", 3)
    ∷ ("TRANSIT_REALTIME__TRIP_DESCRIPTOR__SCHEDULE_RELATIONSHIP__REPLACEMENT", 5)
    ∷ ("TRANSIT_REALTIME__TRIP_DESCRIPTOR__SCHEDULE_RELATIONSHIP__DUPLICATED", 6)
    ∷ ("TRANSIT_REALTIME__TRIP_DESCRIPTOR__SCHEDULE_RELATIONSHIP__DELETED", 7)
    ∷ ("TRANSIT_REALTIME__TRIP_DESCRIPTOR__SCHEDULE_RELATIONSHIP__NEW", 8)
    ∷ []

-- `TransitRealtime__VehicleDescriptor__WheelchairAccessible`
abbrev pub vehicle_descriptor_wheelchair_accessible_constants : List (String × ℕ)
vehicle_descriptor_wheelchair_accessible_constants =
    ("TRANSIT_REALTIME__VEHICLE_DESCRIPTOR__WHEELCHAIR_ACCESSIBLE__NO_VALUE", 0)
    ∷ ("TRANSIT_REALTIME__VEHICLE_DESCRIPTOR__WHEELCHAIR_ACCESSIBLE__UNKNOWN", 1)
    ∷ ("TRANSIT_REALTIME__VEHICLE_DESCRIPTOR__WHEELCHAIR_ACCESSIBLE__WHEELCHAIR_ACCESSIBLE", 2)
    ∷ ("TRANSIT_REALTIME__VEHICLE_DESCRIPTOR__WHEELCHAIR_ACCESSIBLE__WHEELCHAIR_INACCESSIBLE", 3)
    ∷ []

-- `TransitRealtime__Stop__WheelchairBoarding`
abbrev pub stop_wheelchair_boarding_constants : List (String × ℕ)
stop_wheelchair_boarding_constants =
    ("TRANSIT_REALTIME__STOP__WHEELCHAIR_BOARDING__UNKNOWN", 0)
    ∷ ("TRANSIT_REALTIME__STOP__WHEELCHAIR_BOARDING__AVAILABLE", 1)
    ∷ ("TRANSIT_REALTIME__STOP__WHEELCHAIR_BOARDING__NOT_AVAILABLE", 2)
    ∷ []

abbrev pub constants : EnumType → List (String × ℕ)
constants EnumType.feed_header_incrementality = feed_header_incrementality_constants
constants EnumType.trip_update_stop_time_update_stop_time_properties_drop_off_pickup_type =
    trip_update_stop_time_update_stop_time_properties_drop_off_pickup_type_constants
constants EnumType.trip_update_stop_time_update_schedule_relationship =
    trip_update_stop_time_update_schedule_relationship_constants
constants EnumType.vehicle_position_vehicle_stop_status =
    vehicle_position_vehicle_stop_status_constants
constants EnumType.vehicle_position_congestion_level = vehicle_position_congestion_level_constants
constants EnumType.vehicle_position_occupancy_status = vehicle_position_occupancy_status_constants
constants EnumType.alert_cause = alert_cause_constants
constants EnumType.alert_effect = alert_effect_constants
constants EnumType.alert_severity_level = alert_severity_level_constants
constants EnumType.trip_descriptor_schedule_relationship =
    trip_descriptor_schedule_relationship_constants
constants EnumType.vehicle_descriptor_wheelchair_accessible =
    vehicle_descriptor_wheelchair_accessible_constants
constants EnumType.stop_wheelchair_boarding = stop_wheelchair_boarding_constants
