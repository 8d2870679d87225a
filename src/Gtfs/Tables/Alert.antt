-- ===== src/Gtfs/Tables/Alert.antt =====
-- Generated tables of src/ingestion/gtfs-realtime.pb-c.c for the message alert.
use telemetrix_db.Base.{ℕ, none, some, List, [], ◌∷◌, ℤ}
use telemetrix_db.Gtfs.{
  FieldDescriptor, MessageDescriptor, IntRange, field, range, optional, repeated, enum, message,
  to_message, to_enum, alert, alert_cause, alert_effect, alert_severity_level, entity_selector,
  time_range, translated_image, translated_string,
}

-- `transit_realtime__alert__field_descriptors`
abbrev pub alert_fields : List FieldDescriptor
alert_fields =
    field "active_period" 1 repeated message (some "n_active_period") "active_period"
      (to_message time_range) none
    ∷ field "informed_entity" 5 repeated message (some "n_informed_entity") "informed_entity"
        (to_message entity_selector) none
    ∷ field "cause" 6 optional enum (some "has_cause") "cause" (to_enum alert_cause)
        (some (ℤ.pos 1))
    ∷ field "effect" 7 optional enum (some "has_effect") "effect" (to_enum alert_effect)
        (some (ℤ.pos 8))
    ∷ field "url" 8 optional message none "url" (to_message translated_string) none
    ∷ field "header_text" 10 optional message none "header_text" (to_message translated_string) none
    ∷ field "description_text" 11 optional message none "description_text"
        (to_message translated_string) none
    ∷ field "tts_header_text" 12 optional message none "tts_header_text"
        (to_message translated_string) none
    ∷ field "tts_description_text" 13 optional message none "tts_description_text"
        (to_message translated_string) none
    ∷ field "severity_level" 14 optional enum (some "has_severity_level") "severity_level"
        (to_enum alert_severity_level) (some (ℤ.pos 1))
    ∷ field "image" 15 optional message none "image" (to_message translated_image) none
    ∷ field "image_alternative_text" 16 optional message none "image_alternative_text"
        (to_message translated_string) none
    ∷ field "cause_detail" 17 optional message none "cause_detail" (to_message translated_string)
        none
    ∷ field "effect_detail" 18 optional message none "effect_detail" (to_message translated_string)
        none
    ∷ []

-- `transit_realtime__alert__field_indices_by_name`
abbrev pub alert_indices_by_name : List ℕ
alert_indices_by_name = 0 ∷ 2 ∷ 12 ∷ 6 ∷ 3 ∷ 13 ∷ 5 ∷ 10 ∷ 11 ∷ 1 ∷ 9 ∷ 8 ∷ 7 ∷ 4 ∷ []

-- `transit_realtime__alert__number_ranges`
abbrev pub alert_number_ranges : List IntRange
alert_number_ranges = range 1 0 ∷ range 5 1 ∷ range 10 5 ∷ range 0 14 ∷ []

-- `transit_realtime__alert__descriptor`
abbrev pub alert_descriptor : MessageDescriptor
alert_descriptor = record {
  name = "transit_realtime.Alert";
  short_name = "Alert";
  c_name = "TransitRealtime__Alert";
  package_name = "transit_realtime";
  n_fields = 14;
  fields = alert_fields;
  fields_sorted_by_name = alert_indices_by_name;
  n_field_ranges = 3;
  field_ranges = alert_number_ranges;
  message_init = alert;
}
