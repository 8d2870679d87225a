-- ===== src/Gtfs/Structs/Alert.antt =====
-- The struct of include/gtfs-realtime.pb-c.h for the message alert, and its initial value.
use telemetrix_db.Base.{List, [], ◌∷◌, ℤ}
use telemetrix_db.Gtfs.{
  alert, alert_cause, alert_effect, alert_severity_level, entity_selector, time_range,
  translated_image, translated_string,
}
use telemetrix_db.Gtfs.Member.{
  Member, Message, member, boolean, enum_of, pointer_to, pointers_to, size, null, number,
}

-- The members of the struct, in order, after its `base`.
abbrev pub alert_members : List Member
alert_members =
    member "n_active_period" size
    ∷ member "active_period" (pointers_to time_range)
    ∷ member "n_informed_entity" size
    ∷ member "informed_entity" (pointers_to entity_selector)
    ∷ member "has_cause" boolean
    ∷ member "cause" (enum_of alert_cause)
    ∷ member "has_effect" boolean
    ∷ member "effect" (enum_of alert_effect)
    ∷ member "url" (pointer_to translated_string)
    ∷ member "header_text" (pointer_to translated_string)
    ∷ member "description_text" (pointer_to translated_string)
    ∷ member "tts_header_text" (pointer_to translated_string)
    ∷ member "tts_description_text" (pointer_to translated_string)
    ∷ member "has_severity_level" boolean
    ∷ member "severity_level" (enum_of alert_severity_level)
    ∷ member "image" (pointer_to translated_image)
    ∷ member "image_alternative_text" (pointer_to translated_string)
    ∷ member "cause_detail" (pointer_to translated_string)
    ∷ member "effect_detail" (pointer_to translated_string)
    ∷ []

-- The value of its `__INIT` macro.
abbrev pub alert_init_value : Message
alert_init_value = record {
  base = alert;
  values =
      number (ℤ.pos 0)
      ∷ null
      ∷ number (ℤ.pos 0)
      ∷ null
      ∷ number (ℤ.pos 0)
      ∷ number (ℤ.pos 1)
      ∷ number (ℤ.pos 0)
      ∷ number (ℤ.pos 8)
      ∷ null
      ∷ null
      ∷ null
      ∷ null
      ∷ null
      ∷ number (ℤ.pos 0)
      ∷ number (ℤ.pos 1)
      ∷ null
      ∷ null
      ∷ null
      ∷ null
      ∷ [];
}

-- `transit_realtime__alert__init`
abbrev pub alert_init : Message → Message
alert_init message = alert_init_value
