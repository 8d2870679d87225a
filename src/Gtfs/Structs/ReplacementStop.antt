-- ===== src/Gtfs/Structs/ReplacementStop.antt =====
-- The struct of include/gtfs-realtime.pb-c.h for the message replacement_stop, and its initial value.
use telemetrix_db.Base.{List, [], ◌∷◌, ℤ}
use telemetrix_db.Gtfs.{replacement_stop}
use telemetrix_db.Gtfs.Member.{Member, Message, member, boolean, chars, int32, null, number}

-- The members of the struct, in order, after its `base`.
abbrev pub replacement_stop_members : List Member
replacement_stop_members =
    member "has_travel_time_to_stop" boolean
    ∷ member "travel_time_to_stop" int32
    ∷ member "stop_id" chars
    ∷ []

-- The value of its `__INIT` macro.
abbrev pub replacement_stop_init_value : Message
replacement_stop_init_value = record {
  base = replacement_stop;
  values = number (ℤ.pos 0) ∷ number (ℤ.pos 0) ∷ null ∷ [];
}

-- `transit_realtime__replacement_stop__init`
abbrev pub replacement_stop_init : Message → Message
replacement_stop_init message = replacement_stop_init_value
