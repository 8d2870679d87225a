-- ===== src/Gtfs/Structs/TripModificationsModification.antt =====
-- The struct of include/gtfs-realtime.pb-c.h for the message trip_modifications_modification, and its initial value.
use telemetrix_db.Base.{List, [], ◌∷◌, ℤ}
use telemetrix_db.Gtfs.{replacement_stop, stop_selector, trip_modifications_modification}
use telemetrix_db.Gtfs.Member.{
  Member, Message, member, boolean, chars, int32, pointer_to, pointers_to, size, uint64, null,
  number,
}

-- The members of the struct, in order, after its `base`.
abbrev pub trip_modifications_modification_members : List Member
trip_modifications_modification_members =
    member "start_stop_selector" (pointer_to stop_selector)
    ∷ member "end_stop_selector" (pointer_to stop_selector)
    ∷ member "has_propagated_modification_delay" boolean
    ∷ member "propagated_modification_delay" int32
    ∷ member "n_replacement_stops" size
    ∷ member "replacement_stops" (pointers_to replacement_stop)
    ∷ member "service_alert_id" chars
    ∷ member "has_last_modified_time" boolean
    ∷ member "last_modified_time" uint64
    ∷ []

-- The value of its `__INIT` macro.
abbrev pub trip_modifications_modification_init_value : Message
trip_modifications_modification_init_value = record {
  base = trip_modifications_modification;
  values =
      null
      ∷ null
      ∷ number (ℤ.pos 0)
      ∷ number (ℤ.pos 0)
      ∷ number (ℤ.pos 0)
      ∷ null
      ∷ null
      ∷ number (ℤ.pos 0)
      ∷ number (ℤ.pos 0)
      ∷ [];
}

-- `transit_realtime__trip_modifications__modification__init`
abbrev pub trip_modifications_modification_init : Message → Message
trip_modifications_modification_init message = trip_modifications_modification_init_value
