-- ===== src/Gtfs/Enums.antt =====
-- The tables of the 12 enums of src/ingestion/gtfs-realtime.pb-c.c, one module for each.
pub mod FeedHeaderIncrementality
pub mod TripUpdateStopTimeUpdateStopTimePropertiesDropOffPickupType
pub mod TripUpdateStopTimeUpdateScheduleRelationship
pub mod VehiclePositionVehicleStopStatus
pub mod VehiclePositionCongestionLevel
pub mod VehiclePositionOccupancyStatus
pub mod AlertCause
pub mod AlertEffect
pub mod AlertSeverityLevel
pub mod TripDescriptorScheduleRelationship
pub mod VehicleDescriptorWheelchairAccessible
pub mod StopWheelchairBoarding
