-- ===== src/Gtfs/Tables/TripModificationsSelectedTrips.antt =====
-- Generated tables of src/ingestion/gtfs-realtime.pb-c.c for the message
-- trip_modifications__selected_trips.
use telemetrix_db.Base.{ℕ, none, some, List, [], ◌∷◌}
use telemetrix_db.Gtfs.{
  FieldDescriptor, MessageDescriptor, IntRange, field, range, optional, repeated, string, no_target,
  trip_modifications_selected_trips,
}

-- `transit_realtime__trip_modifications__selected_trips__field_descriptors`
abbrev pub trip_modifications_selected_trips_fields : List FieldDescriptor
trip_modifications_selected_trips_fields =
    field "trip_ids" 1 repeated string (some "n_trip_ids") "trip_ids" no_target none
    ∷ field "shape_id" 2 optional string none "shape_id" no_target none
    ∷ []

-- `transit_realtime__trip_modifications__selected_trips__field_indices_by_name`
abbrev pub trip_modifications_selected_trips_indices_by_name : List ℕ
trip_modifications_selected_trips_indices_by_name = 1 ∷ 0 ∷ []

-- `transit_realtime__trip_modifications__selected_trips__number_ranges`
abbrev pub trip_modifications_selected_trips_number_ranges : List IntRange
trip_modifications_selected_trips_number_ranges = range 1 0 ∷ range 0 2 ∷ []

-- `transit_realtime__trip_modifications__selected_trips__descriptor`
abbrev pub trip_modifications_selected_trips_descriptor : MessageDescriptor
trip_modifications_selected_trips_descriptor = record {
  name = "transit_realtime.TripModifications.SelectedTrips";
  short_name = "SelectedTrips";
  c_name = "TransitRealtime__TripModifications__SelectedTrips";
  package_name = "transit_realtime";
  n_fields = 2;
  fields = trip_modifications_selected_trips_fields;
  fields_sorted_by_name = trip_modifications_selected_trips_indices_by_name;
  n_field_ranges = 1;
  field_ranges = trip_modifications_selected_trips_number_ranges;
  message_init = trip_modifications_selected_trips;
}
