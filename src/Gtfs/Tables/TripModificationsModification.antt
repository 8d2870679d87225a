-- ===== src/Gtfs/Tables/TripModificationsModification.antt =====
-- Generated tables of src/ingestion/gtfs-realtime.pb-c.c for the message
-- trip_modifications__modification.
use telemetrix_db.Base.{ℕ, none, some, List, [], ◌∷◌, ℤ}
use telemetrix_db.Gtfs.{
  FieldDescriptor, MessageDescriptor, IntRange, field, range, optional, repeated, int32, message,
  string, uint64, no_target, to_message, replacement_stop, stop_selector,
  trip_modifications_modification,
}

-- `transit_realtime__trip_modifications__modification__field_descriptors`
abbrev pub trip_modifications_modification_fields : List FieldDescriptor
trip_modifications_modification_fields =
    field "start_stop_selector" 1 optional message none "start_stop_selector"
      (to_message stop_selector) none
    ∷ field "end_stop_selector" 2 optional message none "end_stop_selector"
        (to_message stop_selector) none
    ∷ field "propagated_modification_delay" 3 optional int32
        (some "has_propagated_modification_delay") "propagated_modification_delay" no_target
        (some (ℤ.pos 0))
    ∷ field "replacement_stops" 4 repeated message (some "n_replacement_stops") "replacement_stops"
        (to_message replacement_stop) none
    ∷ field "service_alert_id" 5 optional string none "service_alert_id" no_target none
    ∷ field "last_modified_time" 6 optional uint64 (some "has_last_modified_time")
        "last_modified_time" no_target none
    ∷ []

-- `transit_realtime__trip_modifications__modification__field_indices_by_name`
abbrev pub trip_modifications_modification_indices_by_name : List ℕ
trip_modifications_modification_indices_by_name = 1 ∷ 5 ∷ 2 ∷ 3 ∷ 4 ∷ 0 ∷ []

-- `transit_realtime__trip_modifications__modification__number_ranges`
abbrev pub trip_modifications_modification_number_ranges : List IntRange
trip_modifications_modification_number_ranges = range 1 0 ∷ range 0 6 ∷ []

-- `transit_realtime__trip_modifications__modification__descriptor`
abbrev pub trip_modifications_modification_descriptor : MessageDescriptor
trip_modifications_modification_descriptor = record {
  name = "transit_realtime.TripModifications.Modification";
  short_name = "Modification";
  c_name = "TransitRealtime__TripModifications__Modification";
  package_name = "transit_realtime";
  n_fields = 6;
  fields = trip_modifications_modification_fields;
  fields_sorted_by_name = trip_modifications_modification_indices_by_name;
  n_field_ranges = 1;
  field_ranges = trip_modifications_modification_number_ranges;
  message_init = trip_modifications_modification;
}
