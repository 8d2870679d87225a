-- ===== src/Gtfs/Tables/TripModifications.antt =====
-- Generated tables of src/ingestion/gtfs-realtime.pb-c.c for the message trip_modifications.
use telemetrix_db.Base.{ℕ, none, some, List, [], ◌∷◌}
use telemetrix_db.Gtfs.{
  FieldDescriptor, MessageDescriptor, IntRange, field, range, repeated, message, string, no_target,
  to_message, trip_modifications, trip_modifications_modification,
  trip_modifications_selected_trips,
}

-- `transit_realtime__trip_modifications__field_descriptors`
abbrev pub trip_modifications_fields : List FieldDescriptor
trip_modifications_fields =
    field "selected_trips" 1 repeated message (some "n_selected_trips") "selected_trips"
      (to_message trip_modifications_selected_trips) none
    ∷ field "start_times" 2 repeated string (some "n_start_times") "start_times" no_target none
    ∷ field "service_dates" 3 repeated string (some "n_service_dates") "service_dates" no_target
        none
    ∷ field "modifications" 4 repeated message (some "n_modifications") "modifications"
        (to_message trip_modifications_modification) none
    ∷ []

-- `transit_realtime__trip_modifications__field_indices_by_name`
abbrev pub trip_modifications_indices_by_name : List ℕ
trip_modifications_indices_by_name = 3 ∷ 0 ∷ 2 ∷ 1 ∷ []

-- `transit_realtime__trip_modifications__number_ranges`
abbrev pub trip_modifications_number_ranges : List IntRange
trip_modifications_number_ranges = range 1 0 ∷ range 0 4 ∷ []

-- `transit_realtime__trip_modifications__descriptor`
abbrev pub trip_modifications_descriptor : MessageDescriptor
trip_modifications_descriptor = record {
  name = "transit_realtime.TripModifications";
  short_name = "TripModifications";
  c_name = "TransitRealtime__TripModifications";
  package_name = "transit_realtime";
  n_fields = 4;
  fields = trip_modifications_fields;
  fields_sorted_by_name = trip_modifications_indices_by_name;
  n_field_ranges = 1;
  field_ranges = trip_modifications_number_ranges;
  message_init = trip_modifications;
}
