-- ===== src/Gtfs/Tables/TripUpdateStopTimeEvent.antt =====
-- Generated tables of src/ingestion/gtfs-realtime.pb-c.c for the message
-- trip_update__stop_time_event.
use telemetrix_db.Base.{ℕ, none, some, List, [], ◌∷◌}
use telemetrix_db.Gtfs.{
  FieldDescriptor, MessageDescriptor, IntRange, field, range, optional, int32, int64, no_target,
  trip_update_stop_time_event,
}

-- `transit_realtime__trip_update__stop_time_event__field_descriptors`
abbrev pub trip_update_stop_time_event_fields : List FieldDescriptor
trip_update_stop_time_event_fields =
    field "delay" 1 optional int32 (some "has_delay") "delay" no_target none
    ∷ field "time" 2 optional int64 (some "has_time") "time" no_target none
    ∷ field "uncertainty" 3 optional int32 (some "has_uncertainty") "uncertainty" no_target none
    ∷ field "scheduled_time" 4 optional int64 (some "has_scheduled_time") "scheduled_time" no_target
        none
    ∷ []

-- `transit_realtime__trip_update__stop_time_event__field_indices_by_name`
abbrev pub trip_update_stop_time_event_indices_by_name : List ℕ
trip_update_stop_time_event_indices_by_name = 0 ∷ 3 ∷ 1 ∷ 2 ∷ []

-- `transit_realtime__trip_update__stop_time_event__number_ranges`
abbrev pub trip_update_stop_time_event_number_ranges : List IntRange
trip_update_stop_time_event_number_ranges = range 1 0 ∷ range 0 4 ∷ []

-- `transit_realtime__trip_update__stop_time_event__descriptor`
abbrev pub trip_update_stop_time_event_descriptor : MessageDescriptor
trip_update_stop_time_event_descriptor = record {
  name = "transit_realtime.TripUpdate.StopTimeEvent";
  short_name = "StopTimeEvent";
  c_name = "TransitRealtime__TripUpdate__StopTimeEvent";
  package_name = "transit_realtime";
  n_fields = 4;
  fields = trip_update_stop_time_event_fields;
  fields_sorted_by_name = trip_update_stop_time_event_indices_by_name;
  n_field_ranges = 1;
  field_ranges = trip_update_stop_time_event_number_ranges;
  message_init = trip_update_stop_time_event;
}
