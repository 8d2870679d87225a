-- ===== src/Gtfs/Methods.antt =====
-- The messages that have functions of their own to pack and unpack, and these functions.
pub mod FeedMessage
pub mod FeedHeader
pub mod FeedEntity
pub mod TripUpdate
pub mod VehiclePosition
pub mod Alert
pub mod TimeRange
pub mod Position
pub mod TripDescriptor
pub mod VehicleDescriptor
pub mod EntitySelector
pub mod TranslatedString
pub mod TranslatedImage
pub mod Shape
pub mod Stop
pub mod TripModifications
pub mod StopSelector
pub mod ReplacementStop
use telemetrix_db.Gtfs.{MessageType}
use telemetrix_db.Gtfs.Runtime.{Runtime, Methods}
use FeedMessage.{feed_message_methods}
use FeedHeader.{feed_header_methods}
use FeedEntity.{feed_entity_methods}
use TripUpdate.{trip_update_methods}
use VehiclePosition.{vehicle_position_methods}
use Alert.{alert_methods}
use TimeRange.{time_range_methods}
use Position.{position_methods}
use TripDescriptor.{trip_descriptor_methods}
use VehicleDescriptor.{vehicle_descriptor_methods}
use EntitySelector.{entity_selector_methods}
use TranslatedString.{translated_string_methods}
use TranslatedImage.{translated_image_methods}
use Shape.{shape_methods}
use Stop.{stop_methods}
use TripModifications.{trip_modifications_methods}
use StopSelector.{stop_selector_methods}
use ReplacementStop.{replacement_stop_methods}

-- The messages that are not nested in another.
pub data TopLevel : Type 0 where
  feed_message : TopLevel
  feed_header : TopLevel
  feed_entity : TopLevel
  trip_update : TopLevel
  vehicle_position : TopLevel
  alert : TopLevel
  time_range : TopLevel
  position : TopLevel
  trip_descriptor : TopLevel
  vehicle_descriptor : TopLevel
  entity_selector : TopLevel
  translated_string : TopLevel
  translated_image : TopLevel
  shape : TopLevel
  stop : TopLevel
  trip_modifications : TopLevel
  stop_selector : TopLevel
  replacement_stop : TopLevel

abbrev pub type_of : TopLevel → MessageType
type_of TopLevel.feed_message = MessageType.feed_message
type_of TopLevel.feed_header = MessageType.feed_header
type_of TopLevel.feed_entity = MessageType.feed_entity
type_of TopLevel.trip_update = MessageType.trip_update
type_of TopLevel.vehicle_position = MessageType.vehicle_position
type_of TopLevel.alert = MessageType.alert
type_of TopLevel.time_range = MessageType.time_range
type_of TopLevel.position = MessageType.position
type_of TopLevel.trip_descriptor = MessageType.trip_descriptor
type_of TopLevel.vehicle_descriptor = MessageType.vehicle_descriptor
type_of TopLevel.entity_selector = MessageType.entity_selector
type_of TopLevel.translated_string = MessageType.translated_string
type_of TopLevel.translated_image = MessageType.translated_image
type_of TopLevel.shape = MessageType.shape
type_of TopLevel.stop = MessageType.stop
type_of TopLevel.trip_modifications = MessageType.trip_modifications
type_of TopLevel.stop_selector = MessageType.stop_selector
type_of TopLevel.replacement_stop = MessageType.replacement_stop

module _ {Msg Buffer Heap : Type 0} (rt : Runtime Msg Buffer Heap) where
  abbrev pub methods : TopLevel → Methods Msg Buffer Heap
  methods TopLevel.feed_message = feed_message_methods rt
  methods TopLevel.feed_header = feed_header_methods rt
  methods TopLevel.feed_entity = feed_entity_methods rt
  methods TopLevel.trip_update = trip_update_methods rt
  methods TopLevel.vehicle_position = vehicle_position_methods rt
  methods TopLevel.alert = alert_methods rt
  methods TopLevel.time_range = time_range_methods rt
  methods TopLevel.position = position_methods rt
  methods TopLevel.trip_descriptor = trip_descriptor_methods rt
  methods TopLevel.vehicle_descriptor = vehicle_descriptor_methods rt
  methods TopLevel.entity_selector = entity_selector_methods rt
  methods TopLevel.translated_string = translated_string_methods rt
  methods TopLevel.translated_image = translated_image_methods rt
  methods TopLevel.shape = shape_methods rt
  methods TopLevel.stop = stop_methods rt
  methods TopLevel.trip_modifications = trip_modifications_methods rt
  methods TopLevel.stop_selector = stop_selector_methods rt
  methods TopLevel.replacement_stop = replacement_stop_methods rt
