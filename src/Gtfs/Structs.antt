-- ===== src/Gtfs/Structs.antt =====
-- The structs of include/gtfs-realtime.pb-c.h, one module for each.
pub mod FeedMessage
pub mod FeedHeader
pub mod FeedEntity
pub mod TripUpdateStopTimeEvent
pub mod TripUpdateStopTimeUpdateStopTimeProperties
pub mod TripUpdateStopTimeUpdate
pub mod TripUpdateTripProperties
pub mod TripUpdate
pub mod VehiclePositionCarriageDetails
pub mod VehiclePosition
pub mod Alert
pub mod TimeRange
pub mod Position
pub mod TripDescriptorModifiedTripSelector
pub mod TripDescriptor
pub mod VehicleDescriptor
pub mod EntitySelector
pub mod TranslatedStringTranslation
pub mod TranslatedString
pub mod TranslatedImageLocalizedImage
pub mod TranslatedImage
pub mod Shape
pub mod Stop
pub mod TripModificationsModification
pub mod TripModificationsSelectedTrips
pub mod TripModifications
pub mod StopSelector
pub mod ReplacementStop
