-- ===== src/Gtfs/Declared.antt =====
-- The tables say what proto/gtfs-realtime.proto declares.
use telemetrix_db.Base.{
  ℕ, Option, none, some, List, [], ◌∷◌, map, length, ◌≡◌, refl, ◌==◌, if◌then◌else◌,
}
use telemetrix_db.Gtfs.{MessageType, EnumType, FieldDescriptor, MessageDescriptor, EnumValue}
use telemetrix_db.Gtfs.Declaration.{Declaration, declared}
use telemetrix_db.Gtfs.Schema.{schema, names}
use telemetrix_db.Gtfs.Constants.{constants}
use telemetrix_db.Gtfs.Descriptors.{message_descriptor, enum_descriptor}

-- What a field's table entry declares.
abbrev declaration_of : FieldDescriptor → Declaration
declaration_of f = declared (f.name) (f.id) (f.label) (f.type) (f.descriptor) (f.default_value)

abbrev with_number : ℕ → List FieldDescriptor → Option Declaration
with_number n [] = none
with_number n (f ∷ fs) =
    let rest = with_number n fs in if f.id == n then some (declaration_of f) else rest

pub Declares : MessageDescriptor → List Declaration → Type 0
Declares d ds =
    (map (λ (x : Declaration). with_number (x.number) (d.fields)) ds ≡ map some ds)
    × (length (d.fields) ≡ length ds)

-- Of every message of the feed, each field that the proto file declares is in the table under its
-- number, with the declared name, label, type, message or enum, and default value; and the table
-- has no more fields than are declared.
pub message_descriptor-Declares : (m : MessageType) → Declares (message_descriptor m) (schema m)
unfolding Declares
message_descriptor-Declares MessageType.feed_message = (refl, refl)
message_descriptor-Declares MessageType.feed_header = (refl, refl)
message_descriptor-Declares MessageType.feed_entity = (refl, refl)
message_descriptor-Declares MessageType.trip_update_stop_time_event = (refl, refl)
message_descriptor-Declares MessageType.trip_update_stop_time_update_stop_time_properties =
    (refl, refl)
message_descriptor-Declares MessageType.trip_update_stop_time_update = (refl, refl)
message_descriptor-Declares MessageType.trip_update_trip_properties = (refl, refl)
message_descriptor-Declares MessageType.trip_update = (refl, refl)
message_descriptor-Declares MessageType.vehicle_position_carriage_details = (refl, refl)
message_descriptor-Declares MessageType.vehicle_position = (refl, refl)
message_descriptor-Declares MessageType.alert = (refl, refl)
message_descriptor-Declares MessageType.time_range = (refl, refl)
message_descriptor-Declares MessageType.position = (refl, refl)
message_descriptor-Declares MessageType.trip_descriptor_modified_trip_selector = (refl, refl)
message_descriptor-Declares MessageType.trip_descriptor = (refl, refl)
message_descriptor-Declares MessageType.vehicle_descriptor = (refl, refl)
message_descriptor-Declares MessageType.entity_selector = (refl, refl)
message_descriptor-Declares MessageType.translated_string_translation = (refl, refl)
message_descriptor-Declares MessageType.translated_string = (refl, refl)
message_descriptor-Declares MessageType.translated_image_localized_image = (refl, refl)
message_descriptor-Declares MessageType.translated_image = (refl, refl)
message_descriptor-Declares MessageType.shape = (refl, refl)
message_descriptor-Declares MessageType.stop = (refl, refl)
message_descriptor-Declares MessageType.trip_modifications_modification = (refl, refl)
message_descriptor-Declares MessageType.trip_modifications_selected_trips = (refl, refl)
message_descriptor-Declares MessageType.trip_modifications = (refl, refl)
message_descriptor-Declares MessageType.stop_selector = (refl, refl)
message_descriptor-Declares MessageType.replacement_stop = (refl, refl)

-- The table of every enum of the feed lists the values that the proto file declares, with their
-- names, in the same order.
pub enum_descriptor-names :
    (e : EnumType)
    → map (λ (v : EnumValue). (v.name, v.value)) ((enum_descriptor e).values) ≡ names e
enum_descriptor-names EnumType.feed_header_incrementality = refl
enum_descriptor-names
      EnumType.trip_update_stop_time_update_stop_time_properties_drop_off_pickup_type =
    refl
enum_descriptor-names EnumType.trip_update_stop_time_update_schedule_relationship = refl
enum_descriptor-names EnumType.vehicle_position_vehicle_stop_status = refl
enum_descriptor-names EnumType.vehicle_position_congestion_level = refl
enum_descriptor-names EnumType.vehicle_position_occupancy_status = refl
enum_descriptor-names EnumType.alert_cause = refl
enum_descriptor-names EnumType.alert_effect = refl
enum_descriptor-names EnumType.alert_severity_level = refl
enum_descriptor-names EnumType.trip_descriptor_schedule_relationship = refl
enum_descriptor-names EnumType.vehicle_descriptor_wheelchair_accessible = refl
enum_descriptor-names EnumType.stop_wheelchair_boarding = refl

-- The table of every enum of the feed lists the constants of the C header, with their values, in the
-- same order, and the values that the proto file declares, with their names, in the same order.
pub enum_descriptor-constants :
    (e : EnumType)
    → (map (λ (v : EnumValue). (v.c_name, v.value)) (enum_descriptor e).values ≡ constants e)
      × (map (λ (v : EnumValue). (v.name, v.value)) (enum_descriptor e).values ≡ names e)
enum_descriptor-constants EnumType.feed_header_incrementality =
    (refl, enum_descriptor-names EnumType.feed_header_incrementality)
enum_descriptor-constants
      EnumType.trip_update_stop_time_update_stop_time_properties_drop_off_pickup_type =
    (
      refl,
      enum_descriptor-names
          EnumType.trip_update_stop_time_update_stop_time_properties_drop_off_pickup_type,
    )
enum_descriptor-constants EnumType.trip_update_stop_time_update_schedule_relationship =
    (refl, enum_descriptor-names EnumType.trip_update_stop_time_update_schedule_relationship)
enum_descriptor-constants EnumType.vehicle_position_vehicle_stop_status =
    (refl, enum_descriptor-names EnumType.vehicle_position_vehicle_stop_status)
enum_descriptor-constants EnumType.vehicle_position_congestion_level =
    (refl, enum_descriptor-names EnumType.vehicle_position_congestion_level)
enum_descriptor-constants EnumType.vehicle_position_occupancy_status =
    (refl, enum_descriptor-names EnumType.vehicle_position_occupancy_status)
enum_descriptor-constants EnumType.alert_cause = (refl, enum_descriptor-names EnumType.alert_cause)
enum_descriptor-constants EnumType.alert_effect =
    (refl, enum_descriptor-names EnumType.alert_effect)
enum_descriptor-constants EnumType.alert_severity_level =
    (refl, enum_descriptor-names EnumType.alert_severity_level)
enum_descriptor-constants EnumType.trip_descriptor_schedule_relationship =
    (refl, enum_descriptor-names EnumType.trip_descriptor_schedule_relationship)
enum_descriptor-constants EnumType.vehicle_descriptor_wheelchair_accessible =
    (refl, enum_descriptor-names EnumType.vehicle_descriptor_wheelchair_accessible)
enum_descriptor-constants EnumType.stop_wheelchair_boarding =
    (refl, enum_descriptor-names EnumType.stop_wheelchair_boarding)
