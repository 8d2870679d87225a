-- ===== src/Gtfs/Tables/FeedMessage.antt =====
-- Generated tables of src/ingestion/gtfs-realtime.pb-c.c for the message feed_message.
use telemetrix_db.Base.{ℕ, none, some, List, [], ◌∷◌}
use telemetrix_db.Gtfs.{
  FieldDescriptor, MessageDescriptor, IntRange, field, range, required, repeated, message,
  to_message, feed_entity, feed_header, feed_message,
}

-- `transit_realtime__feed_message__field_descriptors`
abbrev pub feed_message_fields : List FieldDescriptor
feed_message_fields =
    field "header" 1 required message none "header" (to_message feed_header) none
    ∷ field "entity" 2 repeated message (some "n_entity") "entity" (to_message feed_entity) none
    ∷ []

-- `transit_realtime__feed_message__field_indices_by_name`
abbrev pub feed_message_indices_by_name : List ℕ
feed_message_indices_by_name = 1 ∷ 0 ∷ []

-- `transit_realtime__feed_message__number_ranges`
abbrev pub feed_message_number_ranges : List IntRange
feed_message_number_ranges = range 1 0 ∷ range 0 2 ∷ []

-- `transit_realtime__feed_message__descriptor`
abbrev pub feed_message_descriptor : MessageDescriptor
feed_message_descriptor = record {
  name = "transit_realtime.FeedMessage";
  short_name = "FeedMessage";
  c_name = "TransitRealtime__FeedMessage";
  package_name = "transit_realtime";
  n_fields = 2;
  fields = feed_message_fields;
  fields_sorted_by_name = feed_message_indices_by_name;
  n_field_ranges = 1;
  field_ranges = feed_message_number_ranges;
  message_init = feed_message;
}
