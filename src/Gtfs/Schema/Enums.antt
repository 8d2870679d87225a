-- ===== src/Gtfs/Schema/Enums.antt =====
-- The enums of proto/gtfs-realtime.proto.
use telemetrix_db.Base.{ℕ, String, List, [], ◌∷◌}

-- `enum FeedHeader.Incrementality`
abbrev pub feed_header_incrementality_names : List (String × ℕ)
feed_header_incrementality_names = ("FULL_DATASET", 0) ∷ ("DIFFERENTIAL", 1) ∷ []

-- `enum TripUpdate.StopTimeUpdate.ScheduleRelationship`
abbrev pub trip_update_stop_time_update_schedule_relationship_names : List (String × ℕ)
trip_update_stop_time_update_schedule_relationship_names =
    ("SCHEDULED", 0) ∷ ("SKIPPED", 1) ∷ ("NO_DATA", 2) ∷ ("UNSCHEDULED", 3) ∷ []

-- `enum TripUpdate.StopTimeUpdate.StopTimeProperties.DropOffPickupType`
abbrev pub trip_update_stop_time_update_stop_time_properties_drop_off_pickup_type_names :
    List (String × ℕ)
trip_update_stop_time_update_stop_time_properties_drop_off_pickup_type_names =
    ("REGULAR", 0) ∷ ("NONE", 1) ∷ ("PHONE_AGENCY", 2) ∷ ("COORDINATE_WITH_DRIVER", 3) ∷ []

-- `enum VehiclePosition.VehicleStopStatus`
abbrev pub vehicle_position_vehicle_stop_status_names : List (String × ℕ)
vehicle_position_vehicle_stop_status_names =
    ("INCOMING_AT", 0) ∷ ("STOPPED_AT", 1) ∷ ("IN_TRANSIT_TO", 2) ∷ []

-- `enum VehiclePosition.CongestionLevel`
abbrev pub vehicle_position_congestion_level_names : List (String × ℕ)
vehicle_position_congestion_level_names =
    ("UNKNOWN_CONGESTION_LEVEL", 0)
    ∷ ("RUNNING_SMOOTHLY", 1)
    ∷ ("STOP_AND_GO", 2)
    ∷ ("CONGESTION", 3)
    ∷ ("SEVERE_CONGESTION", 4)
    ∷ []

-- `enum VehiclePosition.OccupancyStatus`
abbrev pub vehicle_position_occupancy_status_names : List (String × ℕ)
vehicle_position_occupancy_status_names =
    ("EMPTY", 0)
    ∷ ("MANY_SEATS_AVAILABLE", 1)
    ∷ ("FEW_SEATS_AVAILABLE", 2)
    ∷ ("STANDING_ROOM_ONLY", 3)
    ∷ ("CRUSHED_STANDING_ROOM_ONLY", 4)
    ∷ ("FULL", 5)
    ∷ ("NOT_ACCEPTING_PASSENGERS", 6)
    ∷ ("NO_DATA_AVAILABLE", 7)
    ∷ ("NOT_BOARDABLE", 8)
    ∷ []

-- `enum Alert.Cause`
abbrev pub alert_cause_names : List (String × ℕ)
alert_cause_names =
    ("UNKNOWN_CAUSE", 1)
    ∷ ("OTHER_CAUSE", 2)
    ∷ ("TECHNICAL_PROBLEM", 3)
    ∷ ("STRIKE", 4)
    ∷ ("DEMONSTRATION", 5)
    ∷ ("ACCIDENT", 6)
    ∷ ("HOLIDAY", 7)
    ∷ ("WEATHER", 8)
    ∷ ("MAINTENANCE", 9)
    ∷ ("CONSTRUCTION", 10)
    ∷ ("POLICE_ACTIVITY", 11)
    ∷ ("MEDICAL_EMERGENCY", 12)
    ∷ []

-- `enum Alert.Effect`
abbrev pub alert_effect_names : List (String × ℕ)
alert_effect_names =
    ("NO_SERVICE", 1)
    ∷ ("REDUCED_SERVICE", 2)
    ∷ ("SIGNIFICANT_DELAYS", 3)
    ∷ ("DETOUR", 4)
    ∷ ("ADDITIONAL_SERVICE", 5)
    ∷ ("MODIFIED_SERVICE", 6)
    ∷ ("OTHER_EFFECT", 7)
    ∷ ("UNKNOWN_EFFECT", 8)
    ∷ ("STOP_MOVED", 9)
    ∷ ("NO_EFFECT", 10)
    ∷ ("ACCESSIBILITY_ISSUE", 11)
    ∷ []

-- `enum Alert.SeverityLevel`
abbrev pub alert_severity_level_names : List (String × ℕ)
alert_severity_level_names =
    ("UNKNOWN_SEVERITY", 1) ∷ ("INFO", 2) ∷ ("WARNING", 3) ∷ ("SEVERE", 4) ∷ []

-- `enum TripDescriptor.ScheduleRelationship`
abbrev pub trip_descriptor_schedule_relationship_names : List (String × ℕ)
trip_descriptor_schedule_relationship_names =
    ("SCHEDULED", 0)
    ∷ ("ADDED", 1)
    ∷ ("UNSCHEDULED", 2)
    ∷ ("CANCELED", 3)
    ∷ ("REPLACEMENT", 5)
    ∷ ("DUPLICATED", 6)
    ∷ ("DELETED", 7)
    ∷ ("NEW", 8)
    ∷ []

-- `enum VehicleDescriptor.WheelchairAccessible`
abbrev pub vehicle_descriptor_wheelchair_accessible_names : List (String × ℕ)
vehicle_descriptor_wheelchair_accessible_names =
    ("NO_VALUE", 0)
    ∷ ("UNKNOWN", 1)
    ∷ ("WHEELCHAIR_ACCESSIBLE", 2)
    ∷ ("WHEELCHAIR_INACCESSIBLE", 3)
    ∷ []

-- `enum Stop.WheelchairBoarding`
abbrev pub stop_wheelchair_boarding_names : List (String × ℕ)
stop_wheelchair_boarding_names = ("UNKNOWN", 0) ∷ ("AVAILABLE", 1) ∷ ("NOT_AVAILABLE", 2) ∷ []
