-- ===== src/Gtfs/Schema/Feed.antt =====
-- The messages of proto/gtfs-realtime.proto that make up trip updates and vehicle positions.
use telemetrix_db.Base.{none, some, ℤ, List, [], ◌∷◌}
use telemetrix_db.Gtfs.{
  alert, bool, double, enum, feed_entity, feed_header, feed_header_incrementality, float, int32,
  int64, message, no_target, optional, position, repeated, required, shape, stop, string, to_enum,
  to_message, trip_descriptor, trip_descriptor_modified_trip_selector,
  trip_descriptor_schedule_relationship, trip_modifications, trip_update,
  trip_update_stop_time_event, trip_update_stop_time_update,
  trip_update_stop_time_update_schedule_relationship,
  trip_update_stop_time_update_stop_time_properties,
  trip_update_stop_time_update_stop_time_properties_drop_off_pickup_type,
  trip_update_trip_properties, uint32, uint64, vehicle_descriptor,
  vehicle_descriptor_wheelchair_accessible, vehicle_position, vehicle_position_carriage_details,
  vehicle_position_congestion_level, vehicle_position_occupancy_status,
  vehicle_position_vehicle_stop_status,
}
use telemetrix_db.Gtfs.Declaration.{Declaration, declared}

-- `message FeedMessage`
abbrev pub feed_message_schema : List Declaration
feed_message_schema =
    declared "header" 1 required message (to_message feed_header) none
    ∷ declared "entity" 2 repeated message (to_message feed_entity) none
    ∷ []

-- `message FeedHeader`
abbrev pub feed_header_schema : List Declaration
feed_header_schema =
    declared "gtfs_realtime_version" 1 required string no_target none
    ∷ declared "incrementality" 2 optional enum (to_enum feed_header_incrementality)
        (some (ℤ.pos 0))
    ∷ declared "timestamp" 3 optional uint64 no_target none
    ∷ declared "feed_version" 4 optional string no_target none
    ∷ []

-- `message FeedEntity`
abbrev pub feed_entity_schema : List Declaration
feed_entity_schema =
    declared "id" 1 required string no_target none
    ∷ declared "is_deleted" 2 optional bool no_target (some (ℤ.pos 0))
    ∷ declared "trip_update" 3 optional message (to_message trip_update) none
    ∷ declared "vehicle" 4 optional message (to_message vehicle_position) none
    ∷ declared "alert" 5 optional message (to_message alert) none
    ∷ declared "shape" 6 optional message (to_message shape) none
    ∷ declared "stop" 7 optional message (to_message stop) none
    ∷ declared "trip_modifications" 8 optional message (to_message trip_modifications) none
    ∷ []

-- `message TripUpdate`
abbrev pub trip_update_schema : List Declaration
trip_update_schema =
    declared "trip" 1 required message (to_message trip_descriptor) none
    ∷ declared "vehicle" 3 optional message (to_message vehicle_descriptor) none
    ∷ declared "stop_time_update" 2 repeated message (to_message trip_update_stop_time_update) none
    ∷ declared "timestamp" 4 optional uint64 no_target none
    ∷ declared "delay" 5 optional int32 no_target none
    ∷ declared "trip_properties" 6 optional message (to_message trip_update_trip_properties) none
    ∷ []

-- `message TripUpdate.StopTimeEvent`
abbrev pub trip_update_stop_time_event_schema : List Declaration
trip_update_stop_time_event_schema =
    declared "delay" 1 optional int32 no_target none
    ∷ declared "time" 2 optional int64 no_target none
    ∷ declared "uncertainty" 3 optional int32 no_target none
    ∷ declared "scheduled_time" 4 optional int64 no_target none
    ∷ []

-- `message TripUpdate.StopTimeUpdate`
abbrev pub trip_update_stop_time_update_schema : List Declaration
trip_update_stop_time_update_schema =
    declared "stop_sequence" 1 optional uint32 no_target none
    ∷ declared "stop_id" 4 optional string no_target none
    ∷ declared "arrival" 2 optional message (to_message trip_update_stop_time_event) none
    ∷ declared "departure" 3 optional message (to_message trip_update_stop_time_event) none
    ∷ declared "departure_occupancy_status" 7 optional enum
        (to_enum vehicle_position_occupancy_status) none
    ∷ declared "schedule_relationship" 5 optional enum
        (to_enum trip_update_stop_time_update_schedule_relationship) (some (ℤ.pos 0))
    ∷ declared "stop_time_properties" 6 optional message
        (to_message trip_update_stop_time_update_stop_time_properties) none
    ∷ []

-- `message TripUpdate.StopTimeUpdate.StopTimeProperties`
abbrev pub trip_update_stop_time_update_stop_time_properties_schema : List Declaration
trip_update_stop_time_update_stop_time_properties_schema =
    declared "assigned_stop_id" 1 optional string no_target none
    ∷ declared "stop_headsign" 2 optional string no_target none
    ∷ declared "pickup_type" 3 optional enum
        (to_enum trip_update_stop_time_update_stop_time_properties_drop_off_pickup_type) none
    ∷ declared "drop_off_type" 4 optional enum
        (to_enum trip_update_stop_time_update_stop_time_properties_drop_off_pickup_type) none
    ∷ []

-- `message TripUpdate.TripProperties`
abbrev pub trip_update_trip_properties_schema : List Declaration
trip_update_trip_properties_schema =
    declared "trip_id" 1 optional string no_target none
    ∷ declared "start_date" 2 optional string no_target none
    ∷ declared "start_time" 3 optional string no_target none
    ∷ declared "shape_id" 4 optional string no_target none
    ∷ declared "trip_headsign" 5 optional string no_target none
    ∷ declared "trip_short_name" 6 optional string no_target none
    ∷ []

-- `message VehiclePosition`
abbrev pub vehicle_position_schema : List Declaration
vehicle_position_schema =
    declared "trip" 1 optional message (to_message trip_descriptor) none
    ∷ declared "vehicle" 8 optional message (to_message vehicle_descriptor) none
    ∷ declared "position" 2 optional message (to_message position) none
    ∷ declared "current_stop_sequence" 3 optional uint32 no_target none
    ∷ declared "stop_id" 7 optional string no_target none
    ∷ declared "current_status" 4 optional enum (to_enum vehicle_position_vehicle_stop_status)
        (some (ℤ.pos 2))
    ∷ declared "timestamp" 5 optional uint64 no_target none
    ∷ declared "congestion_level" 6 optional enum (to_enum vehicle_position_congestion_level) none
    ∷ declared "occupancy_status" 9 optional enum (to_enum vehicle_position_occupancy_status) none
    ∷ declared "occupancy_percentage" 10 optional uint32 no_target none
    ∷ declared "multi_carriage_details" 11 repeated message
        (to_message vehicle_position_carriage_details) none
    ∷ []

-- `message VehiclePosition.CarriageDetails`
abbrev pub vehicle_position_carriage_details_schema : List Declaration
vehicle_position_carriage_details_schema =
    declared "id" 1 optional string no_target none
    ∷ declared "label" 2 optional string no_target none
    ∷ declared "occupancy_status" 3 optional enum (to_enum vehicle_position_occupancy_status)
        (some (ℤ.pos 7))
    ∷ declared "occupancy_percentage" 4 optional int32 no_target (some (ℤ.negsuc 0))
    ∷ declared "carriage_sequence" 5 optional uint32 no_target none
    ∷ []

-- `message Position`
abbrev pub position_schema : List Declaration
position_schema =
    declared "latitude" 1 required float no_target none
    ∷ declared "longitude" 2 required float no_target none
    ∷ declared "bearing" 3 optional float no_target none
    ∷ declared "odometer" 4 optional double no_target none
    ∷ declared "speed" 5 optional float no_target none
    ∷ []

-- `message TripDescriptor`
abbrev pub trip_descriptor_schema : List Declaration
trip_descriptor_schema =
    declared "trip_id" 1 optional string no_target none
    ∷ declared "route_id" 5 optional string no_target none
    ∷ declared "direction_id" 6 optional uint32 no_target none
    ∷ declared "start_time" 2 optional string no_target none
    ∷ declared "start_date" 3 optional string no_target none
    ∷ declared "schedule_relationship" 4 optional enum
        (to_enum trip_descriptor_schedule_relationship) none
    ∷ declared "modified_trip" 7 optional message
        (to_message trip_descriptor_modified_trip_selector) none
    ∷ []

-- `message TripDescriptor.ModifiedTripSelector`
abbrev pub trip_descriptor_modified_trip_selector_schema : List Declaration
trip_descriptor_modified_trip_selector_schema =
    declared "modifications_id" 1 optional string no_target none
    ∷ declared "affected_trip_id" 2 optional string no_target none
    ∷ declared "start_time" 3 optional string no_target none
    ∷ declared "start_date" 4 optional string no_target none
    ∷ []

-- `message VehicleDescriptor`
abbrev pub vehicle_descriptor_schema : List Declaration
vehicle_descriptor_schema =
    declared "id" 1 optional string no_target none
    ∷ declared "label" 2 optional string no_target none
    ∷ declared "license_plate" 3 optional string no_target none
    ∷ declared "wheelchair_accessible" 4 optional enum
        (to_enum vehicle_descriptor_wheelchair_accessible) (some (ℤ.pos 0))
    ∷ []
