-- ===== src/Gtfs/Structs/TranslatedString.antt =====
-- The struct of include/gtfs-realtime.pb-c.h for the message translated_string, and its initial value.
use telemetrix_db.Base.{List, [], ◌∷◌, ℤ}
use telemetrix_db.Gtfs.{translated_string, translated_string_translation}
use telemetrix_db.Gtfs.Member.{Member, Message, member, pointers_to, size, null, number}

-- The members of the struct, in order, after its `base`.
abbrev pub translated_string_members : List Member
translated_string_members =
    member "n_translation" size
    ∷ member "translation" (pointers_to translated_string_translation)
    ∷ []

-- The value of its `__INIT` macro.
abbrev pub translated_string_init_value : Message
translated_string_init_value = record {
  base = translated_string;
  values = number (ℤ.pos 0) ∷ null ∷ [];
}

-- `transit_realtime__translated_string__init`
abbrev pub translated_string_init : Message → Message
translated_string_init message = translated_string_init_value
