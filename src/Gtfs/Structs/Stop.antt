-- ===== src/Gtfs/Structs/Stop.antt =====
-- The struct of include/gtfs-realtime.pb-c.h for the message stop, and its initial value.
use telemetrix_db.Base.{List, [], ◌∷◌, ℤ}
use telemetrix_db.Gtfs.{stop, stop_wheelchair_boarding, translated_string}
use telemetrix_db.Gtfs.Member.{
  Member, Message, member, boolean, chars, enum_of, float, pointer_to, null, number,
}

-- The members of the struct, in order, after its `base`.
abbrev pub stop_members : List Member
stop_members =
    member "stop_id" chars
    ∷ member "stop_code" (pointer_to translated_string)
    ∷ member "stop_name" (pointer_to translated_string)
    ∷ member "tts_stop_name" (pointer_to translated_string)
    ∷ member "stop_desc" (pointer_to translated_string)
    ∷ member "has_stop_lat" boolean
    ∷ member "stop_lat" float
    ∷ member "has_stop_lon" boolean
    ∷ member "stop_lon" float
    ∷ member "zone_id" chars
    ∷ member "stop_url" (pointer_to translated_string)
    ∷ member "parent_station" chars
    ∷ member "stop_timezone" chars
    ∷ member "has_wheelchair_boarding" boolean
    ∷ member "wheelchair_boarding" (enum_of stop_wheelchair_boarding)
    ∷ member "level_id" chars
    ∷ member "platform_code" (pointer_to translated_string)
    ∷ []

-- The value of its `__INIT` macro.
abbrev pub stop_init_value : Message
stop_init_value = record {
  base = stop;
  values =
      null
      ∷ null
      ∷ null
      ∷ null
      ∷ null
      ∷ number (ℤ.pos 0)
      ∷ number (ℤ.pos 0)
      ∷ number (ℤ.pos 0)
      ∷ number (ℤ.pos 0)
      ∷ null
      ∷ null
      ∷ null
      ∷ null
      ∷ number (ℤ.pos 0)
      ∷ number (ℤ.pos 0)
      ∷ null
      ∷ null
      ∷ [];
}

-- `transit_realtime__stop__init`
abbrev pub stop_init : Message → Message
stop_init message = stop_init_value
