-- ===== src/Gtfs/Tables/TranslatedImage.antt =====
-- Generated tables of src/ingestion/gtfs-realtime.pb-c.c for the message translated_image.
use telemetrix_db.Base.{ℕ, none, some, List, [], ◌∷◌}
use telemetrix_db.Gtfs.{
  FieldDescriptor, MessageDescriptor, IntRange, field, range, repeated, message, to_message,
  translated_image, translated_image_localized_image,
}

-- `transit_realtime__translated_image__field_descriptors`
abbrev pub translated_image_fields : List FieldDescriptor
translated_image_fields =
    field "localized_image" 1 repeated message (some "n_localized_image") "localized_image"
      (to_message translated_image_localized_image) none
    ∷ []

-- `transit_realtime__translated_image__field_indices_by_name`
abbrev pub translated_image_indices_by_name : List ℕ
translated_image_indices_by_name = 0 ∷ []

-- `transit_realtime__translated_image__number_ranges`
abbrev pub translated_image_number_ranges : List IntRange
translated_image_number_ranges = range 1 0 ∷ range 0 1 ∷ []

-- `transit_realtime__translated_image__descriptor`
abbrev pub translated_image_descriptor : MessageDescriptor
translated_image_descriptor = record {
  name = "transit_realtime.TranslatedImage";
  short_name = "TranslatedImage";
  c_name = "TransitRealtime__TranslatedImage";
  package_name = "transit_realtime";
  n_fields = 1;
  fields = translated_image_fields;
  fields_sorted_by_name = translated_image_indices_by_name;
  n_field_ranges = 1;
  field_ranges = translated_image_number_ranges;
  message_init = translated_image;
}
