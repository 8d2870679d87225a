-- ===== src/Gtfs/Schema.antt =====
-- proto/gtfs-realtime.proto: the fields of each message and the values of each enum.
pub mod Feed
pub mod Service
pub mod Enums
use telemetrix_db.Base.{ℕ, String, List}
use telemetrix_db.Gtfs.{MessageType, EnumType}
use telemetrix_db.Gtfs.Declaration.{Declaration}
use Feed.{
  feed_message_schema, feed_header_schema, feed_entity_schema, trip_update_schema,
  trip_update_stop_time_event_schema, trip_update_stop_time_update_schema,
  trip_update_stop_time_update_stop_time_properties_schema, trip_update_trip_properties_schema,
  vehicle_position_schema, vehicle_position_carriage_details_schema, position_schema,
  trip_descriptor_schema, trip_descriptor_modified_trip_selector_schema, vehicle_descriptor_schema,
}
use Service.{
  alert_schema, time_range_schema, entity_selector_schema, translated_string_schema,
  translated_string_translation_schema, translated_image_schema,
  translated_image_localized_image_schema, shape_schema, stop_schema, trip_modifications_schema,
  trip_modifications_modification_schema, trip_modifications_selected_trips_schema,
  stop_selector_schema, replacement_stop_schema,
}
use Enums.{
  feed_header_incrementality_names, trip_update_stop_time_update_schedule_relationship_names,
  trip_update_stop_time_update_stop_time_properties_drop_off_pickup_type_names,
  vehicle_position_vehicle_stop_status_names, vehicle_position_congestion_level_names,
  vehicle_position_occupancy_status_names, alert_cause_names, alert_effect_names,
  alert_severity_level_names, trip_descriptor_schedule_relationship_names,
  vehicle_descriptor_wheelchair_accessible_names, stop_wheelchair_boarding_names,
}

abbrev pub schema : MessageType → List Declaration
schema MessageType.feed_message = feed_message_schema
schema MessageType.feed_header = feed_header_schema
schema MessageType.feed_entity = feed_entity_schema
schema MessageType.trip_update_stop_time_event = trip_update_stop_time_event_schema
schema MessageType.trip_update_stop_time_update_stop_time_properties =
    trip_update_stop_time_update_stop_time_properties_schema
schema MessageType.trip_update_stop_time_update = trip_update_stop_time_update_schema
schema MessageType.trip_update_trip_properties = trip_update_trip_properties_schema
schema MessageType.trip_update = trip_update_schema
schema MessageType.vehicle_position_carriage_details = vehicle_position_carriage_details_schema
schema MessageType.vehicle_position = vehicle_position_schema
schema MessageType.alert = alert_schema
schema MessageType.time_range = time_range_schema
schema MessageType.position = position_schema
schema MessageType.trip_descriptor_modified_trip_selector =
    trip_descriptor_modified_trip_selector_schema
schema MessageType.trip_descriptor = trip_descriptor_schema
schema MessageType.vehicle_descriptor = vehicle_descriptor_schema
schema MessageType.entity_selector = entity_selector_schema
schema MessageType.translated_string_translation = translated_string_translation_schema
schema MessageType.translated_string = translated_string_schema
schema MessageType.translated_image_localized_image = translated_image_localized_image_schema
schema MessageType.translated_image = translated_image_schema
schema MessageType.shape = shape_schema
schema MessageType.stop = stop_schema
schema MessageType.trip_modifications_modification = trip_modifications_modification_schema
schema MessageType.trip_modifications_selected_trips = trip_modifications_selected_trips_schema
schema MessageType.trip_modifications = trip_modifications_schema
schema MessageType.stop_selector = stop_selector_schema
schema MessageType.replacement_stop = replacement_stop_schema

abbrev pub names : EnumType → List (String × ℕ)
names EnumType.feed_header_incrementality = feed_header_incrementality_names
names EnumType.trip_update_stop_time_update_stop_time_properties_drop_off_pickup_type =
    trip_update_stop_time_update_stop_time_properties_drop_off_pickup_type_names
names EnumType.trip_update_stop_time_update_schedule_relationship =
    trip_update_stop_time_update_schedule_relationship_names
names EnumType.vehicle_position_vehicle_stop_status = vehicle_position_vehicle_stop_status_names
names EnumType.vehicle_position_congestion_level = vehicle_position_congestion_level_names
names EnumType.vehicle_position_occupancy_status = vehicle_position_occupancy_status_names
names EnumType.alert_cause = alert_cause_names
names EnumType.alert_effect = alert_effect_names
names EnumType.alert_severity_level = alert_severity_level_names
names EnumType.trip_descriptor_schedule_relationship = trip_descriptor_schedule_relationship_names
names EnumType.vehicle_descriptor_wheelchair_accessible =
    vehicle_descriptor_wheelchair_accessible_names
names EnumType.stop_wheelchair_boarding = stop_wheelchair_boarding_names
