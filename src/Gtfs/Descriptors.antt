-- ===== src/Gtfs/Descriptors.antt =====
-- The descriptor that each name of a message or an enum stands for.
use telemetrix_db.Gtfs.{MessageType, EnumType, MessageDescriptor, EnumDescriptor}
use telemetrix_db.Gtfs.Tables.FeedMessage.{feed_message_descriptor}
use telemetrix_db.Gtfs.Tables.FeedHeader.{feed_header_descriptor}
use telemetrix_db.Gtfs.Tables.FeedEntity.{feed_entity_descriptor}
use telemetrix_db.Gtfs.Tables.TripUpdateStopTimeEvent.{trip_update_stop_time_event_descriptor}
use telemetrix_db.Gtfs.Tables.TripUpdateStopTimeUpdateStopTimeProperties.{
  trip_update_stop_time_update_stop_time_properties_descriptor,
}
use telemetrix_db.Gtfs.Tables.TripUpdateStopTimeUpdate.{trip_update_stop_time_update_descriptor}
use telemetrix_db.Gtfs.Tables.TripUpdateTripProperties.{trip_update_trip_properties_descriptor}
use telemetrix_db.Gtfs.Tables.TripUpdate.{trip_update_descriptor}
use telemetrix_db.Gtfs.Tables.VehiclePositionCarriageDetails.{
  vehicle_position_carriage_details_descriptor,
}
use telemetrix_db.Gtfs.Tables.VehiclePosition.{vehicle_position_descriptor}
use telemetrix_db.Gtfs.Tables.Alert.{alert_descriptor}
use telemetrix_db.Gtfs.Tables.TimeRange.{time_range_descriptor}
use telemetrix_db.Gtfs.Tables.Position.{position_descriptor}
use telemetrix_db.Gtfs.Tables.TripDescriptorModifiedTripSelector.{
  trip_descriptor_modified_trip_selector_descriptor,
}
use telemetrix_db.Gtfs.Tables.TripDescriptor.{trip_descriptor_descriptor}
use telemetrix_db.Gtfs.Tables.VehicleDescriptor.{vehicle_descriptor_descriptor}
use telemetrix_db.Gtfs.Tables.EntitySelector.{entity_selector_descriptor}
use telemetrix_db.Gtfs.Tables.TranslatedStringTranslation.{translated_string_translation_descriptor}
use telemetrix_db.Gtfs.Tables.TranslatedString.{translated_string_descriptor}
use telemetrix_db.Gtfs.Tables.TranslatedImageLocalizedImage.{
  translated_image_localized_image_descriptor,
}
use telemetrix_db.Gtfs.Tables.TranslatedImage.{translated_image_descriptor}
use telemetrix_db.Gtfs.Tables.Shape.{shape_descriptor}
use telemetrix_db.Gtfs.Tables.Stop.{stop_descriptor}
use telemetrix_db.Gtfs.Tables.TripModificationsModification.{
  trip_modifications_modification_descriptor,
}
use telemetrix_db.Gtfs.Tables.TripModificationsSelectedTrips.{
  trip_modifications_selected_trips_descriptor,
}
use telemetrix_db.Gtfs.Tables.TripModifications.{trip_modifications_descriptor}
use telemetrix_db.Gtfs.Tables.StopSelector.{stop_selector_descriptor}
use telemetrix_db.Gtfs.Tables.ReplacementStop.{replacement_stop_descriptor}
use telemetrix_db.Gtfs.Enums.FeedHeaderIncrementality.{feed_header_incrementality_descriptor}
use telemetrix_db.Gtfs.Enums.TripUpdateStopTimeUpdateStopTimePropertiesDropOffPickupType.{
  trip_update_stop_time_update_stop_time_properties_drop_off_pickup_type_descriptor,
}
use telemetrix_db.Gtfs.Enums.TripUpdateStopTimeUpdateScheduleRelationship.{
  trip_update_stop_time_update_schedule_relationship_descriptor,
}
use telemetrix_db.Gtfs.Enums.VehiclePositionVehicleStopStatus.{
  vehicle_position_vehicle_stop_status_descriptor,
}
use telemetrix_db.Gtfs.Enums.VehiclePositionCongestionLevel.{
  vehicle_position_congestion_level_descriptor,
}
use telemetrix_db.Gtfs.Enums.VehiclePositionOccupancyStatus.{
  vehicle_position_occupancy_status_descriptor,
}
use telemetrix_db.Gtfs.Enums.AlertCause.{alert_cause_descriptor}
use telemetrix_db.Gtfs.Enums.AlertEffect.{alert_effect_descriptor}
use telemetrix_db.Gtfs.Enums.AlertSeverityLevel.{alert_severity_level_descriptor}
use telemetrix_db.Gtfs.Enums.TripDescriptorScheduleRelationship.{
  trip_descriptor_schedule_relationship_descriptor,
}
use telemetrix_db.Gtfs.Enums.VehicleDescriptorWheelchairAccessible.{
  vehicle_descriptor_wheelchair_accessible_descriptor,
}
use telemetrix_db.Gtfs.Enums.StopWheelchairBoarding.{stop_wheelchair_boarding_descriptor}

abbrev pub message_descriptor : MessageType → MessageDescriptor
message_descriptor MessageType.feed_message = feed_message_descriptor
message_descriptor MessageType.feed_header = feed_header_descriptor
message_descriptor MessageType.feed_entity = feed_entity_descriptor
message_descriptor MessageType.trip_update_stop_time_event = trip_update_stop_time_event_descriptor
message_descriptor MessageType.trip_update_stop_time_update_stop_time_properties =
    trip_update_stop_time_update_stop_time_properties_descriptor
message_descriptor MessageType.trip_update_stop_time_update =
    trip_update_stop_time_update_descriptor
message_descriptor MessageType.trip_update_trip_properties = trip_update_trip_properties_descriptor
message_descriptor MessageType.trip_update = trip_update_descriptor
message_descriptor MessageType.vehicle_position_carriage_details =
    vehicle_position_carriage_details_descriptor
message_descriptor MessageType.vehicle_position = vehicle_position_descriptor
message_descriptor MessageType.alert = alert_descriptor
message_descriptor MessageType.time_range = time_range_descriptor
message_descriptor MessageType.position = position_descriptor
message_descriptor MessageType.trip_descriptor_modified_trip_selector =
    trip_descriptor_modified_trip_selector_descriptor
message_descriptor MessageType.trip_descriptor = trip_descriptor_descriptor
message_descriptor MessageType.vehicle_descriptor = vehicle_descriptor_descriptor
message_descriptor MessageType.entity_selector = entity_selector_descriptor
message_descriptor MessageType.translated_string_translation =
    translated_string_translation_descriptor
message_descriptor MessageType.translated_string = translated_string_descriptor
message_descriptor MessageType.translated_image_localized_image =
    translated_image_localized_image_descriptor
message_descriptor MessageType.translated_image = translated_image_descriptor
message_descriptor MessageType.shape = shape_descriptor
message_descriptor MessageType.stop = stop_descriptor
message_descriptor MessageType.trip_modifications_modification =
    trip_modifications_modification_descriptor
message_descriptor MessageType.trip_modifications_selected_trips =
    trip_modifications_selected_trips_descriptor
message_descriptor MessageType.trip_modifications = trip_modifications_descriptor
message_descriptor MessageType.stop_selector = stop_selector_descriptor
message_descriptor MessageType.replacement_stop = replacement_stop_descriptor

abbrev pub enum_descriptor : EnumType → EnumDescriptor
enum_descriptor EnumType.feed_header_incrementality = feed_header_incrementality_descriptor
enum_descriptor EnumType.trip_update_stop_time_update_stop_time_properties_drop_off_pickup_type =
    trip_update_stop_time_update_stop_time_properties_drop_off_pickup_type_descriptor
enum_descriptor EnumType.trip_update_stop_time_update_schedule_relationship =
    trip_update_stop_time_update_schedule_relationship_descriptor
enum_descriptor EnumType.vehicle_position_vehicle_stop_status =
    vehicle_position_vehicle_stop_status_descriptor
enum_descriptor EnumType.vehicle_position_congestion_level =
    vehicle_position_congestion_level_descriptor
enum_descriptor EnumType.vehicle_position_occupancy_status =
    vehicle_position_occupancy_status_descriptor
enum_descriptor EnumType.alert_cause = alert_cause_descriptor
enum_descriptor EnumType.alert_effect = alert_effect_descriptor
enum_descriptor EnumType.alert_severity_level = alert_severity_level_descriptor
enum_descriptor EnumType.trip_descriptor_schedule_relationship =
    trip_descriptor_schedule_relationship_descriptor
enum_descriptor EnumType.vehicle_descriptor_wheelchair_accessible =
    vehicle_descriptor_wheelchair_accessible_descriptor
enum_descriptor EnumType.stop_wheelchair_boarding = stop_wheelchair_boarding_descriptor
