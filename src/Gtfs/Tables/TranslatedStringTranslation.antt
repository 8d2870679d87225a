-- ===== src/Gtfs/Tables/TranslatedStringTranslation.antt =====
-- Generated tables of src/ingestion/gtfs-realtime.pb-c.c for the message
-- translated_string__translation.
use telemetrix_db.Base.{ℕ, none, List, [], ◌∷◌}
use telemetrix_db.Gtfs.{
  FieldDescriptor, MessageDescriptor, IntRange, field, range, required, optional, string, no_target,
  translated_string_translation,
}

-- `transit_realtime__translated_string__translation__field_descriptors`
abbrev pub translated_string_translation_fields : List FieldDescriptor
translated_string_translation_fields =
    field "text" 1 required string none "text" no_target none
    ∷ field "language" 2 optional string none "language" no_target none
    ∷ []

-- `transit_realtime__translated_string__translation__field_indices_by_name`
abbrev pub translated_string_translation_indices_by_name : List ℕ
translated_string_translation_indices_by_name = 1 ∷ 0 ∷ []

-- `transit_realtime__translated_string__translation__number_ranges`
abbrev pub translated_string_translation_number_ranges : List IntRange
translated_string_translation_number_ranges = range 1 0 ∷ range 0 2 ∷ []

-- `transit_realtime__translated_string__translation__descriptor`
abbrev pub translated_string_translation_descriptor : MessageDescriptor
translated_string_translation_descriptor = record {
  name = "transit_realtime.TranslatedString.Translation";
  short_name = "Translation";
  c_name = "TransitRealtime__TranslatedString__Translation";
  package_name = "transit_realtime";
  n_fields = 2;
  fields = translated_string_translation_fields;
  fields_sorted_by_name = translated_string_translation_indices_by_name;
  n_field_ranges = 1;
  field_ranges = translated_string_translation_number_ranges;
  message_init = translated_string_translation;
}
