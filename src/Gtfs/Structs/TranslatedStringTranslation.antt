-- ===== src/Gtfs/Structs/TranslatedStringTranslation.antt =====
-- The struct of include/gtfs-realtime.pb-c.h for the message translated_string_translation, and its initial value.
use telemetrix_db.Base.{List, [], ◌∷◌}
use telemetrix_db.Gtfs.{translated_string_translation}
use telemetrix_db.Gtfs.Member.{Member, Message, member, chars, null}

-- The members of the struct, in order, after its `base`.
abbrev pub translated_string_translation_members : List Member
translated_string_translation_members = member "text" chars ∷ member "language" chars ∷ []

-- The value of its `__INIT` macro.
abbrev pub translated_string_translation_init_value : Message
translated_string_translation_init_value = record {
  base = translated_string_translation;
  values = null ∷ null ∷ [];
}

-- `transit_realtime__translated_string__translation__init`
abbrev pub translated_string_translation_init : Message → Message
translated_string_translation_init message = translated_string_translation_init_value
