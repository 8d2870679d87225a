-- ===== src/Gtfs.antt =====
-- The types of the protobuf-c descriptor tables in src/ingestion/gtfs-realtime.pb-c.c, and names
-- for the messages and enums of the feed.
pub mod Tables
pub mod Enums
pub mod Member
pub mod Structs
pub mod Declaration
pub mod Schema
pub mod Descriptors
pub mod Consistent
pub mod Constants
pub mod Declared
pub mod Fresh
pub mod Runtime
pub mod Methods
pub mod Unpacked
mod Tests
use telemetrix_db.Base.{ℕ, Option, List, String, ℤ}

-- `PROTOBUF_C_LABEL_...`
pub data Label : Type 0 where
  required : Label
  optional : Label
  repeated : Label

-- `PROTOBUF_C_TYPE_...`, those that the feed uses.
pub data FieldType : Type 0 where
  bool : FieldType
  double : FieldType
  enum : FieldType
  float : FieldType
  int32 : FieldType
  int64 : FieldType
  message : FieldType
  string : FieldType
  uint32 : FieldType
  uint64 : FieldType

-- One name for each `ProtobufCMessageDescriptor` of the file.
pub data MessageType : Type 0 where
  feed_message : MessageType
  feed_header : MessageType
  feed_entity : MessageType
  trip_update_stop_time_event : MessageType
  trip_update_stop_time_update_stop_time_properties : MessageType
  trip_update_stop_time_update : MessageType
  trip_update_trip_properties : MessageType
  trip_update : MessageType
  vehicle_position_carriage_details : MessageType
  vehicle_position : MessageType
  alert : MessageType
  time_range : MessageType
  position : MessageType
  trip_descriptor_modified_trip_selector : MessageType
  trip_descriptor : MessageType
  vehicle_descriptor : MessageType
  entity_selector : MessageType
  translated_string_translation : MessageType
  translated_string : MessageType
  translated_image_localized_image : MessageType
  translated_image : MessageType
  shape : MessageType
  stop : MessageType
  trip_modifications_modification : MessageType
  trip_modifications_selected_trips : MessageType
  trip_modifications : MessageType
  stop_selector : MessageType
  replacement_stop : MessageType

-- One name for each `ProtobufCEnumDescriptor` of the file.
pub data EnumType : Type 0 where
  feed_header_incrementality : EnumType
  trip_update_stop_time_update_stop_time_properties_drop_off_pickup_type : EnumType
  trip_update_stop_time_update_schedule_relationship : EnumType
  vehicle_position_vehicle_stop_status : EnumType
  vehicle_position_congestion_level : EnumType
  vehicle_position_occupancy_status : EnumType
  alert_cause : EnumType
  alert_effect : EnumType
  alert_severity_level : EnumType
  trip_descriptor_schedule_relationship : EnumType
  vehicle_descriptor_wheelchair_accessible : EnumType
  stop_wheelchair_boarding : EnumType

-- The pointer `descriptor` of a field: NULL, or the table of a message or of an enum.
pub data Target : Type 0 where
  no_target : Target
  to_message : MessageType → Target
  to_enum : EnumType → Target

-- `ProtobufCFieldDescriptor`. An offset is the name of the member that `offsetof` takes.
pub record FieldDescriptor : Type 0 where
  pub name : String
  id : ℕ
  label : Label
  type : FieldType
  quantifier_offset : Option String
  offset : String
  descriptor : Target
  pub default_value : Option ℤ

-- `ProtobufCIntRange`
pub record IntRange : Type 0 where
  start_value : ℕ
  orig_index : ℕ

-- `ProtobufCMessageDescriptor`. `message_init` names the message whose init function it holds.
pub record MessageDescriptor : Type 0 where
  pub name : String
  short_name : String
  c_name : String
  package_name : String
  n_fields : ℕ
  pub fields : List FieldDescriptor
  fields_sorted_by_name : List ℕ
  n_field_ranges : ℕ
  field_ranges : List IntRange
  message_init : MessageType

-- `ProtobufCEnumValue`
pub record EnumValue : Type 0 where
  pub name : String
  pub c_name : String
  pub value : ℕ

-- `ProtobufCEnumValueIndex`
pub record EnumValueIndex : Type 0 where
  pub name : String
  index : ℕ

-- `ProtobufCEnumDescriptor`
pub record EnumDescriptor : Type 0 where
  pub name : String
  short_name : String
  c_name : String
  package_name : String
  n_values : ℕ
  pub values : List EnumValue
  n_value_names : ℕ
  values_by_name : List EnumValueIndex
  n_value_ranges : ℕ
  value_ranges : List IntRange

-- The initialisers of the tables, in the order in which the C file writes them.
abbrev pub field :
    String → ℕ → Label → FieldType → Option String → String → Target → Option ℤ → FieldDescriptor
field n i l t q o d v = record {
  name = n;
  id = i;
  label = l;
  type = t;
  quantifier_offset = q;
  offset = o;
  descriptor = d;
  default_value = v;
}

abbrev pub range : ℕ → ℕ → IntRange
range a i = record { start_value = a; orig_index = i }

abbrev pub enum_value : String → String → ℕ → EnumValue
enum_value n c v = record { name = n; c_name = c; value = v }

abbrev pub value_index : String → ℕ → EnumValueIndex
value_index n i = record { name = n; index = i }
