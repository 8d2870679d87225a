-- ===== src/Gtfs/Structs/TripModificationsSelectedTrips.antt =====
-- The struct of include/gtfs-realtime.pb-c.h for the message trip_modifications_selected_trips, and its initial value.
use telemetrix_db.Base.{List, [], ◌∷◌, ℤ}
use telemetrix_db.Gtfs.{trip_modifications_selected_trips}
use telemetrix_db.Gtfs.Member.{Member, Message, member, char_arrays, chars, size, null, number}

-- The members of the struct, in order, after its `base`.
abbrev pub trip_modifications_selected_trips_members : List Member
trip_modifications_selected_trips_members =
    member "n_trip_ids" size ∷ member "trip_ids" char_arrays ∷ member "shape_id" chars ∷ []

-- The value of its `__INIT` macro.
abbrev pub trip_modifications_selected_trips_init_value : Message
trip_modifications_selected_trips_init_value = record {
  base = trip_modifications_selected_trips;
  values = number (ℤ.pos 0) ∷ null ∷ null ∷ [];
}

-- `transit_realtime__trip_modifications__selected_trips__init`
abbrev pub trip_modifications_selected_trips_init : Message → Message
trip_modifications_selected_trips_init message = trip_modifications_selected_trips_init_value
