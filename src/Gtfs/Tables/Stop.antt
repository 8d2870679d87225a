-- ===== src/Gtfs/Tables/Stop.antt =====
-- Generated tables of src/ingestion/gtfs-realtime.pb-c.c for the message stop.
use telemetrix_db.Base.{ℕ, none, some, List, [], ◌∷◌, ℤ}
use telemetrix_db.Gtfs.{
  FieldDescriptor, MessageDescriptor, IntRange, field, range, optional, enum, float, message,
  string, no_target, to_message, to_enum, stop, stop_wheelchair_boarding, translated_string,
}

-- `transit_realtime__stop__field_descriptors`
abbrev pub stop_fields : List FieldDescriptor
stop_fields =
    field "stop_id" 1 optional string none "stop_id" no_target none
    ∷ field "stop_code" 2 optional message none "stop_code" (to_message translated_string) none
    ∷ field "stop_name" 3 optional message none "stop_name" (to_message translated_string) none
    ∷ field "tts_stop_name" 4 optional message none "tts_stop_name" (to_message translated_string)
        none
    ∷ field "stop_desc" 5 optional message none "stop_desc" (to_message translated_string) none
    ∷ field "stop_lat" 6 optional float (some "has_stop_lat") "stop_lat" no_target none
    ∷ field "stop_lon" 7 optional float (some "has_stop_lon") "stop_lon" no_target none
    ∷ field "zone_id" 8 optional string none "zone_id" no_target none
    ∷ field "stop_url" 9 optional message none "stop_url" (to_message translated_string) none
    ∷ field "parent_station" 11 optional string none "parent_station" no_target none
    ∷ field "stop_timezone" 12 optional string none "stop_timezone" no_target none
    ∷ field "wheelchair_boarding" 13 optional enum (some "has_wheelchair_boarding")
        "wheelchair_boarding" (to_enum stop_wheelchair_boarding) (some (ℤ.pos 0))
    ∷ field "level_id" 14 optional string none "level_id" no_target none
    ∷ field "platform_code" 15 optional message none "platform_code" (to_message translated_string)
        none
    ∷ []

-- `transit_realtime__stop__field_indices_by_name`
abbrev pub stop_indices_by_name : List ℕ
stop_indices_by_name = 12 ∷ 9 ∷ 13 ∷ 1 ∷ 4 ∷ 0 ∷ 5 ∷ 6 ∷ 2 ∷ 10 ∷ 8 ∷ 3 ∷ 11 ∷ 7 ∷ []

-- `transit_realtime__stop__number_ranges`
abbrev pub stop_number_ranges : List IntRange
stop_number_ranges = range 1 0 ∷ range 11 9 ∷ range 0 14 ∷ []

-- `transit_realtime__stop__descriptor`
abbrev pub stop_descriptor : MessageDescriptor
stop_descriptor = record {
  name = "transit_realtime.Stop";
  short_name = "Stop";
  c_name = "TransitRealtime__Stop";
  package_name = "transit_realtime";
  n_fields = 14;
  fields = stop_fields;
  fields_sorted_by_name = stop_indices_by_name;
  n_field_ranges = 2;
  field_ranges = stop_number_ranges;
  message_init = stop;
}
