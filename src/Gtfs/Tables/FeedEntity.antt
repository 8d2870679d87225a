-- ===== src/Gtfs/Tables/FeedEntity.antt =====
-- Generated tables of src/ingestion/gtfs-realtime.pb-c.c for the message feed_entity.
use telemetrix_db.Base.{ℕ, none, some, List, [], ◌∷◌, ℤ}
use telemetrix_db.Gtfs.{
  FieldDescriptor, MessageDescriptor, IntRange, field, range, required, optional, bool, message,
  string, no_target, to_message, alert, feed_entity, shape, stop, trip_modifications, trip_update,
  vehicle_position,
}

-- `transit_realtime__feed_entity__field_descriptors`
abbrev pub feed_entity_fields : List FieldDescriptor
feed_entity_fields =
    field "id" 1 required string none "id" no_target none
    ∷ field "is_deleted" 2 optional bool (some "has_is_deleted") "is_deleted" no_target
        (some (ℤ.pos 0))
    ∷ field "trip_update" 3 optional message none "trip_update" (to_message trip_update) none
    ∷ field "vehicle" 4 optional message none "vehicle" (to_message vehicle_position) none
    ∷ field "alert" 5 optional message none "alert" (to_message alert) none
    ∷ field "shape" 6 optional message none "shape" (to_message shape) none
    ∷ field "stop" 7 optional message none "stop" (to_message stop) none
    ∷ field "trip_modifications" 8 optional message none "trip_modifications"
        (to_message trip_modifications) none
    ∷ []

-- `transit_realtime__feed_entity__field_indices_by_name`
abbrev pub feed_entity_indices_by_name : List ℕ
feed_entity_indices_by_name = 4 ∷ 0 ∷ 1 ∷ 5 ∷ 6 ∷ 7 ∷ 2 ∷ 3 ∷ []

-- `transit_realtime__feed_entity__number_ranges`
abbrev pub feed_entity_number_ranges : List IntRange
feed_entity_number_ranges = range 1 0 ∷ range 0 8 ∷ []

-- `transit_realtime__feed_entity__descriptor`
abbrev pub feed_entity_descriptor : MessageDescriptor
feed_entity_descriptor = record {
  name = "transit_realtime.FeedEntity";
  short_name = "FeedEntity";
  c_name = "TransitRealtime__FeedEntity";
  package_name = "transit_realtime";
  n_fields = 8;
  fields = feed_entity_fields;
  fields_sorted_by_name = feed_entity_indices_by_name;
  n_field_ranges = 1;
  field_ranges = feed_entity_number_ranges;
  message_init = feed_entity;
}
