-- ===== src/Gtfs/Structs/TranslatedImageLocalizedImage.antt =====
-- The struct of include/gtfs-realtime.pb-c.h for the message translated_image_localized_image, and its initial value.
use telemetrix_db.Base.{List, [], ◌∷◌}
use telemetrix_db.Gtfs.{translated_image_localized_image}
use telemetrix_db.Gtfs.Member.{Member, Message, member, chars, null}

-- The members of the struct, in order, after its `base`.
abbrev pub translated_image_localized_image_members : List Member
translated_image_localized_image_members =
    member "url" chars ∷ member "media_type" chars ∷ member "language" chars ∷ []

-- The value of its `__INIT` macro.
abbrev pub translated_image_localized_image_init_value : Message
translated_image_localized_image_init_value = record {
  base = translated_image_localized_image;
  values = null ∷ null ∷ null ∷ [];
}

-- `transit_realtime__translated_image__localized_image__init`
abbrev pub translated_image_localized_image_init : Message → Message
translated_image_localized_image_init message = translated_image_localized_image_init_value
