-- ===== src/Gtfs/Structs/TripUpdateStopTimeEvent.antt =====
-- The struct of include/gtfs-realtime.pb-c.h for the message trip_update_stop_time_event, and its initial value.
use telemetrix_db.Base.{List, [], ◌∷◌, ℤ}
use telemetrix_db.Gtfs.{trip_update_stop_time_event}
use telemetrix_db.Gtfs.Member.{Member, Message, member, boolean, int32, int64, number}

-- The members of the struct, in order, after its `base`.
abbrev pub trip_update_stop_time_event_members : List Member
trip_update_stop_time_event_members =
    member "has_delay" boolean
    ∷ member "delay" int32
    ∷ member "has_time" boolean
    ∷ member "time" int64
    ∷ member "has_uncertainty" boolean
    ∷ member "uncertainty" int32
    ∷ member "has_scheduled_time" boolean
    ∷ member "scheduled_time" int64
    ∷ []

-- The value of its `__INIT` macro.
abbrev pub trip_update_stop_time_event_init_value : Message
trip_update_stop_time_event_init_value = record {
  base = trip_update_stop_time_event;
  values =
      number (ℤ.pos 0)
      ∷ number (ℤ.pos 0)
      ∷ number (ℤ.pos 0)
      ∷ number (ℤ.pos 0)
      ∷ number (ℤ.pos 0)
      ∷ number (ℤ.pos 0)
      ∷ number (ℤ.pos 0)
      ∷ number (ℤ.pos 0)
      ∷ [];
}

-- `transit_realtime__trip_update__stop_time_event__init`
abbrev pub trip_update_stop_time_event_init : Message → Message
trip_update_stop_time_event_init message = trip_update_stop_time_event_init_value
