-- ===== src/Gtfs/Structs/TranslatedImage.antt =====
-- The struct of include/gtfs-realtime.pb-c.h for the message translated_image, and its initial value.
use telemetrix_db.Base.{List, [], ◌∷◌, ℤ}
use telemetrix_db.Gtfs.{translated_image, translated_image_localized_image}
use telemetrix_db.Gtfs.Member.{Member, Message, member, pointers_to, size, null, number}

-- The members of the struct, in order, after its `base`.
abbrev pub translated_image_members : List Member
translated_image_members =
    member "n_localized_image" size
    ∷ member "localized_image" (pointers_to translated_image_localized_image)
    ∷ []

-- The value of its `__INIT` macro.
abbrev pub translated_image_init_value : Message
translated_image_init_value = record {
  base = translated_image;
  values = number (ℤ.pos 0) ∷ null ∷ [];
}

-- `transit_realtime__translated_image__init`
abbrev pub translated_image_init : Message → Message
translated_image_init message = translated_image_init_value
