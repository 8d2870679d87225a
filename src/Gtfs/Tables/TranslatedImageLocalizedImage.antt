-- ===== src/Gtfs/Tables/TranslatedImageLocalizedImage.antt =====
-- Generated tables of src/ingestion/gtfs-realtime.pb-c.c for the message
-- translated_image__localized_image.
use telemetrix_db.Base.{ℕ, none, List, [], ◌∷◌}
use telemetrix_db.Gtfs.{
  FieldDescriptor, MessageDescriptor, IntRange, field, range, required, optional, string, no_target,
  translated_image_localized_image,
}

-- `transit_realtime__translated_image__localized_image__field_descriptors`
abbrev pub translated_image_localized_image_fields : List FieldDescriptor
translated_image_localized_image_fields =
    field "url" 1 required string none "url" no_target none
    ∷ field "media_type" 2 required string none "media_type" no_target none
    ∷ field "language" 3 optional string none "language" no_target none
    ∷ []

-- `transit_realtime__translated_image__localized_image__field_indices_by_name`
abbrev pub translated_image_localized_image_indices_by_name : List ℕ
translated_image_localized_image_indices_by_name = 2 ∷ 1 ∷ 0 ∷ []

-- `transit_realtime__translated_image__localized_image__number_ranges`
abbrev pub translated_image_localized_image_number_ranges : List IntRange
translated_image_localized_image_number_ranges = range 1 0 ∷ range 0 3 ∷ []

-- `transit_realtime__translated_image__localized_image__descriptor`
abbrev pub translated_image_localized_image_descriptor : MessageDescriptor
translated_image_localized_image_descriptor = record {
  name = "transit_realtime.TranslatedImage.LocalizedImage";
  short_name = "LocalizedImage";
  c_name = "TransitRealtime__TranslatedImage__LocalizedImage";
  package_name = "transit_realtime";
  n_fields = 3;
  fields = translated_image_localized_image_fields;
  fields_sorted_by_name = translated_image_localized_image_indices_by_name;
  n_field_ranges = 1;
  field_ranges = translated_image_localized_image_number_ranges;
  message_init = translated_image_localized_image;
}
