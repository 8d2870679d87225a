-- ===== src/Gtfs/Fresh.antt =====
-- The structs, their initial values and the descriptor tables of src/ingestion/gtfs-realtime.pb-c.c
-- describe the same members.
use telemetrix_db.Base.{
  ℕ, Bool, true, false, ◌&&◌, Option, none, some, List, [], ◌∷◌, ◌++◌, map, length, String, ℤ, ◌≡◌,
  refl, ◌==◌, if◌then◌else◌,
}
use telemetrix_db.Text.{bytes}
use telemetrix_db.Gtfs.{
  MessageType, MessageDescriptor, FieldDescriptor, EnumValue, Label, FieldType, Target,
}
use telemetrix_db.Gtfs.Member.{CType, Member, Message, Value, null, number}
use telemetrix_db.Gtfs.Descriptors.{message_descriptor, enum_descriptor}
use telemetrix_db.Gtfs.Structs.FeedMessage.{feed_message_members, feed_message_init}
use telemetrix_db.Gtfs.Structs.FeedHeader.{feed_header_members, feed_header_init}
use telemetrix_db.Gtfs.Structs.FeedEntity.{feed_entity_members, feed_entity_init}
use telemetrix_db.Gtfs.Structs.TripUpdateStopTimeEvent.{
  trip_update_stop_time_event_members, trip_update_stop_time_event_init,
}
use telemetrix_db.Gtfs.Structs.TripUpdateStopTimeUpdateStopTimeProperties.{
  trip_update_stop_time_update_stop_time_properties_members,
  trip_update_stop_time_update_stop_time_properties_init,
}
use telemetrix_db.Gtfs.Structs.TripUpdateStopTimeUpdate.{
  trip_update_stop_time_update_members, trip_update_stop_time_update_init,
}
use telemetrix_db.Gtfs.Structs.TripUpdateTripProperties.{
  trip_update_trip_properties_members, trip_update_trip_properties_init,
}
use telemetrix_db.Gtfs.Structs.TripUpdate.{trip_update_members, trip_update_init}
use telemetrix_db.Gtfs.Structs.VehiclePositionCarriageDetails.{
  vehicle_position_carriage_details_members, vehicle_position_carriage_details_init,
}
use telemetrix_db.Gtfs.Structs.VehiclePosition.{vehicle_position_members, vehicle_position_init}
use telemetrix_db.Gtfs.Structs.Alert.{alert_members, alert_init}
use telemetrix_db.Gtfs.Structs.TimeRange.{time_range_members, time_range_init}
use telemetrix_db.Gtfs.Structs.Position.{position_members, position_init}
use telemetrix_db.Gtfs.Structs.TripDescriptorModifiedTripSelector.{
  trip_descriptor_modified_trip_selector_members, trip_descriptor_modified_trip_selector_init,
}
use telemetrix_db.Gtfs.Structs.TripDescriptor.{trip_descriptor_members, trip_descriptor_init}
use telemetrix_db.Gtfs.Structs.VehicleDescriptor.{
  vehicle_descriptor_members, vehicle_descriptor_init,
}
use telemetrix_db.Gtfs.Structs.EntitySelector.{entity_selector_members, entity_selector_init}
use telemetrix_db.Gtfs.Structs.TranslatedStringTranslation.{
  translated_string_translation_members, translated_string_translation_init,
}
use telemetrix_db.Gtfs.Structs.TranslatedString.{translated_string_members, translated_string_init}
use telemetrix_db.Gtfs.Structs.TranslatedImageLocalizedImage.{
  translated_image_localized_image_members, translated_image_localized_image_init,
}
use telemetrix_db.Gtfs.Structs.TranslatedImage.{translated_image_members, translated_image_init}
use telemetrix_db.Gtfs.Structs.Shape.{shape_members, shape_init}
use telemetrix_db.Gtfs.Structs.Stop.{stop_members, stop_init}
use telemetrix_db.Gtfs.Structs.TripModificationsModification.{
  trip_modifications_modification_members, trip_modifications_modification_init,
}
use telemetrix_db.Gtfs.Structs.TripModificationsSelectedTrips.{
  trip_modifications_selected_trips_members, trip_modifications_selected_trips_init,
}
use telemetrix_db.Gtfs.Structs.TripModifications.{
  trip_modifications_members, trip_modifications_init,
}
use telemetrix_db.Gtfs.Structs.StopSelector.{stop_selector_members, stop_selector_init}
use telemetrix_db.Gtfs.Structs.ReplacementStop.{replacement_stop_members, replacement_stop_init}

abbrev pub members : MessageType → List Member
members MessageType.feed_message = feed_message_members
members MessageType.feed_header = feed_header_members
members MessageType.feed_entity = feed_entity_members
members MessageType.trip_update_stop_time_event = trip_update_stop_time_event_members
members MessageType.trip_update_stop_time_update_stop_time_properties =
    trip_update_stop_time_update_stop_time_properties_members
members MessageType.trip_update_stop_time_update = trip_update_stop_time_update_members
members MessageType.trip_update_trip_properties = trip_update_trip_properties_members
members MessageType.trip_update = trip_update_members
members MessageType.vehicle_position_carriage_details = vehicle_position_carriage_details_members
members MessageType.vehicle_position = vehicle_position_members
members MessageType.alert = alert_members
members MessageType.time_range = time_range_members
members MessageType.position = position_members
members MessageType.trip_descriptor_modified_trip_selector =
    trip_descriptor_modified_trip_selector_members
members MessageType.trip_descriptor = trip_descriptor_members
members MessageType.vehicle_descriptor = vehicle_descriptor_members
members MessageType.entity_selector = entity_selector_members
members MessageType.translated_string_translation = translated_string_translation_members
members MessageType.translated_string = translated_string_members
members MessageType.translated_image_localized_image = translated_image_localized_image_members
members MessageType.translated_image = translated_image_members
members MessageType.shape = shape_members
members MessageType.stop = stop_members
members MessageType.trip_modifications_modification = trip_modifications_modification_members
members MessageType.trip_modifications_selected_trips = trip_modifications_selected_trips_members
members MessageType.trip_modifications = trip_modifications_members
members MessageType.stop_selector = stop_selector_members
members MessageType.replacement_stop = replacement_stop_members

-- The init function of each message.
abbrev pub init_of : MessageType → Message → Message
init_of MessageType.feed_message = feed_message_init
init_of MessageType.feed_header = feed_header_init
init_of MessageType.feed_entity = feed_entity_init
init_of MessageType.trip_update_stop_time_event = trip_update_stop_time_event_init
init_of MessageType.trip_update_stop_time_update_stop_time_properties =
    trip_update_stop_time_update_stop_time_properties_init
init_of MessageType.trip_update_stop_time_update = trip_update_stop_time_update_init
init_of MessageType.trip_update_trip_properties = trip_update_trip_properties_init
init_of MessageType.trip_update = trip_update_init
init_of MessageType.vehicle_position_carriage_details = vehicle_position_carriage_details_init
init_of MessageType.vehicle_position = vehicle_position_init
init_of MessageType.alert = alert_init
init_of MessageType.time_range = time_range_init
init_of MessageType.position = position_init
init_of MessageType.trip_descriptor_modified_trip_selector =
    trip_descriptor_modified_trip_selector_init
init_of MessageType.trip_descriptor = trip_descriptor_init
init_of MessageType.vehicle_descriptor = vehicle_descriptor_init
init_of MessageType.entity_selector = entity_selector_init
init_of MessageType.translated_string_translation = translated_string_translation_init
init_of MessageType.translated_string = translated_string_init
init_of MessageType.translated_image_localized_image = translated_image_localized_image_init
init_of MessageType.translated_image = translated_image_init
init_of MessageType.shape = shape_init
init_of MessageType.stop = stop_init
init_of MessageType.trip_modifications_modification = trip_modifications_modification_init
init_of MessageType.trip_modifications_selected_trips = trip_modifications_selected_trips_init
init_of MessageType.trip_modifications = trip_modifications_init
init_of MessageType.stop_selector = stop_selector_init
init_of MessageType.replacement_stop = replacement_stop_init

-- A member as a table declares it: its name, its type and the value of an unset field.
pub record Slot : Type 0 where
  pub name : String
  pub type : CType
  pub value : Value

-- The value of an unset scalar: the default, or 0, or the first value of its enum.
abbrev first_value : List EnumValue → ℤ
first_value [] = ℤ.pos 0
first_value (v ∷ vs) = ℤ.pos v.value

abbrev unset : Option ℤ → Target → ℤ
unset (some d) t = d
unset none (Target.to_enum e) = first_value (enum_descriptor e).values
unset none t = ℤ.pos 0

abbrev scalar_type : FieldType → Target → CType
scalar_type FieldType.bool t = CType.boolean
scalar_type FieldType.double t = CType.double
scalar_type FieldType.float t = CType.float
scalar_type FieldType.int32 t = CType.int32
scalar_type FieldType.int64 t = CType.int64
scalar_type FieldType.uint32 t = CType.uint32
scalar_type FieldType.uint64 t = CType.uint64
scalar_type FieldType.enum (Target.to_enum e) = CType.enum_of e
scalar_type f t = CType.size

-- The members of a field: that of its value, and before it the flag or the count.
abbrev value_slot : Label → FieldType → String → Target → Option ℤ → Slot
value_slot Label.repeated FieldType.message n (Target.to_message m) d = record {
  name = n;
  type = CType.pointers_to m;
  value = null;
}
value_slot Label.repeated FieldType.string n t d = record {
  name = n;
  type = CType.char_arrays;
  value = null;
}
value_slot Label.repeated f n t d = record {
  name = n;
  type = CType.array_of (scalar_type f t);
  value = null;
}
value_slot l FieldType.message n (Target.to_message m) d = record {
  name = n;
  type = CType.pointer_to m;
  value = null;
}
value_slot l FieldType.string n t d = record { name = n; type = CType.chars; value = null }
value_slot l f n t d = record { name = n; type = scalar_type f t; value = number (unset d t) }

abbrev slots_of : FieldDescriptor → List Slot
slots_of f = elim f.quantifier_offset [
  | none ↦ value_slot f.label f.type f.offset f.descriptor f.default_value ∷ []
  | some q ↦
      record {
        name = q;
        type = elim f.label [ Label.repeated ↦ CType.size | _ ↦ CType.boolean ];
        value = number (ℤ.pos 0);
      }
      ∷ value_slot f.label f.type f.offset f.descriptor f.default_value
      ∷ []
]

abbrev all_slots : List FieldDescriptor → List Slot
all_slots [] = []
all_slots (f ∷ fs) = slots_of f ++ all_slots fs

abbrev same : List ℕ → List ℕ → Bool
same [] [] = true
same (c ∷ a) (d ∷ b) = (c == d) && same a b
same a b = false

-- The member of this name, with its initial value.
abbrev slot_at : String → List Member → List Value → Option Slot
slot_at n (m ∷ ms) (v ∷ vs) =
    let rest = slot_at n ms vs in
    if same (bytes n) (bytes m.name)
    then some (record { name = m.name; type = m.type; value = v })
    else rest
slot_at n ms vs = none

pub Agrees : MessageDescriptor → List Member → Message → Type 0
Agrees d ms fresh =
    (map (λ (s : Slot). slot_at s.name ms fresh.values) (all_slots d.fields)
      ≡ map some (all_slots d.fields))
    × (length ms ≡ length (all_slots d.fields))
    × (length fresh.values ≡ length ms)

-- Of every message of the feed, whatever stood in it before, the init function gives it its own
-- descriptor, and for each field of the table the struct has the member at the field's offset, of the C
-- type of the field, and the flag or count at its quantifier's offset; the initial values are null, 0
-- or the field's default, or the first value of its enum; and the struct has no other members.
pub init-Agrees :
    (m : MessageType) (before : Message)
    → ((init_of m before).base ≡ m) × Agrees (message_descriptor m) (members m) (init_of m before)
unfolding Agrees
init-Agrees MessageType.feed_message before = (refl, (refl, refl, refl))
init-Agrees MessageType.feed_header before = (refl, (refl, refl, refl))
init-Agrees MessageType.feed_entity before = (refl, (refl, refl, refl))
init-Agrees MessageType.trip_update_stop_time_event before = (refl, (refl, refl, refl))
init-Agrees MessageType.trip_update_stop_time_update_stop_time_properties before =
    (refl, (refl, refl, refl))
init-Agrees MessageType.trip_update_stop_time_update before = (refl, (refl, refl, refl))
init-Agrees MessageType.trip_update_trip_properties before = (refl, (refl, refl, refl))
init-Agrees MessageType.trip_update before = (refl, (refl, refl, refl))
init-Agrees MessageType.vehicle_position_carriage_details before = (refl, (refl, refl, refl))
init-Agrees MessageType.vehicle_position before = (refl, (refl, refl, refl))
init-Agrees MessageType.alert before = (refl, (refl, refl, refl))
init-Agrees MessageType.time_range before = (refl, (refl, refl, refl))
init-Agrees MessageType.position before = (refl, (refl, refl, refl))
init-Agrees MessageType.trip_descriptor_modified_trip_selector before = (refl, (refl, refl, refl))
init-Agrees MessageType.trip_descriptor before = (refl, (refl, refl, refl))
init-Agrees MessageType.vehicle_descriptor before = (refl, (refl, refl, refl))
init-Agrees MessageType.entity_selector before = (refl, (refl, refl, refl))
init-Agrees MessageType.translated_string_translation before = (refl, (refl, refl, refl))
init-Agrees MessageType.translated_string before = (refl, (refl, refl, refl))
init-Agrees MessageType.translated_image_localized_image before = (refl, (refl, refl, refl))
init-Agrees MessageType.translated_image before = (refl, (refl, refl, refl))
init-Agrees MessageType.shape before = (refl, (refl, refl, refl))
init-Agrees MessageType.stop before = (refl, (refl, refl, refl))
init-Agrees MessageType.trip_modifications_modification before = (refl, (refl, refl, refl))
init-Agrees MessageType.trip_modifications_selected_trips before = (refl, (refl, refl, refl))
init-Agrees MessageType.trip_modifications before = (refl, (refl, refl, refl))
init-Agrees MessageType.stop_selector before = (refl, (refl, refl, refl))
init-Agrees MessageType.replacement_stop before = (refl, (refl, refl, refl))
