-- ===== src/Gtfs/Tables/TranslatedString.antt =====
-- Generated tables of src/ingestion/gtfs-realtime.pb-c.c for the message translated_string.
use telemetrix_db.Base.{ℕ, none, some, List, [], ◌∷◌}
use telemetrix_db.Gtfs.{
  FieldDescriptor, MessageDescriptor, IntRange, field, range, repeated, message, to_message,
  translated_string, translated_string_translation,
}

-- `transit_realtime__translated_string__field_descriptors`
abbrev pub translated_string_fields : List FieldDescriptor
translated_string_fields =
    field "translation" 1 repeated message (some "n_translation") "translation"
      (to_message translated_string_translation) none
    ∷ []

-- `transit_realtime__translated_string__field_indices_by_name`
abbrev pub translated_string_indices_by_name : List ℕ
translated_string_indices_by_name = 0 ∷ []

-- `transit_realtime__translated_string__number_ranges`
abbrev pub translated_string_number_ranges : List IntRange
translated_string_number_ranges = range 1 0 ∷ range 0 1 ∷ []

-- `transit_realtime__translated_string__descriptor`
abbrev pub translated_string_descriptor : MessageDescriptor
translated_string_descriptor = record {
  name = "transit_realtime.TranslatedString";
  short_name = "TranslatedString";
  c_name = "TransitRealtime__TranslatedString";
  package_name = "transit_realtime";
  n_fields = 1;
  fields = translated_string_fields;
  fields_sorted_by_name = translated_string_indices_by_name;
  n_field_ranges = 1;
  field_ranges = translated_string_number_ranges;
  message_init = translated_string;
}
