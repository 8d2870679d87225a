-- ===== src/Gtfs/Structs/TripModifications.antt =====
-- The struct of include/gtfs-realtime.pb-c.h for the message trip_modifications, and its initial value.
use telemetrix_db.Base.{List, [], ◌∷◌, ℤ}
use telemetrix_db.Gtfs.{
  trip_modifications, trip_modifications_modification, trip_modifications_selected_trips,
}
use telemetrix_db.Gtfs.Member.{
  Member, Message, member, char_arrays, pointers_to, size, null, number,
}

-- The members of the struct, in order, after its `base`.
abbrev pub trip_modifications_members : List Member
trip_modifications_members =
    member "n_selected_trips" size
    ∷ member "selected_trips" (pointers_to trip_modifications_selected_trips)
    ∷ member "n_start_times" size
    ∷ member "start_times" char_arrays
    ∷ member "n_service_dates" size
    ∷ member "service_dates" char_arrays
    ∷ member "n_modifications" size
    ∷ member "modifications" (pointers_to trip_modifications_modification)
    ∷ []

-- The value of its `__INIT` macro.
abbrev pub trip_modifications_init_value : Message
trip_modifications_init_value = record {
  base = trip_modifications;
  values =
      number (ℤ.pos 0)
      ∷ null
      ∷ number (ℤ.pos 0)
      ∷ null
      ∷ number (ℤ.pos 0)
      ∷ null
      ∷ number (ℤ.pos 0)
      ∷ null
      ∷ [];
}

-- `transit_realtime__trip_modifications__init`
abbrev pub trip_modifications_init : Message → Message
trip_modifications_init message = trip_modifications_init_value
