-- ===== src/Gtfs/Tables/FeedHeader.antt =====
-- Generated tables of src/ingestion/gtfs-realtime.pb-c.c for the message feed_header.
use telemetrix_db.Base.{ℕ, none, some, List, [], ◌∷◌, ℤ}
use telemetrix_db.Gtfs.{
  FieldDescriptor, MessageDescriptor, IntRange, field, range, required, optional, enum, string,
  uint64, no_target, to_enum, feed_header, feed_header_incrementality,
}

-- `transit_realtime__feed_header__field_descriptors`
abbrev pub feed_header_fields : List FieldDescriptor
feed_header_fields =
    field "gtfs_realtime_version" 1 required string none "gtfs_realtime_version" no_target none
    ∷ field "incrementality" 2 optional enum (some "has_incrementality") "incrementality"
        (to_enum feed_header_incrementality) (some (ℤ.pos 0))
    ∷ field "timestamp" 3 optional uint64 (some "has_timestamp") "timestamp" no_target none
    ∷ field "feed_version" 4 optional string none "feed_version" no_target none
    ∷ []

-- `transit_realtime__feed_header__field_indices_by_name`
abbrev pub feed_header_indices_by_name : List ℕ
feed_header_indices_by_name = 3 ∷ 0 ∷ 1 ∷ 2 ∷ []

-- `transit_realtime__feed_header__number_ranges`
abbrev pub feed_header_number_ranges : List IntRange
feed_header_number_ranges = range 1 0 ∷ range 0 4 ∷ []

-- `transit_realtime__feed_header__descriptor`
abbrev pub feed_header_descriptor : MessageDescriptor
feed_header_descriptor = record {
  name = "transit_realtime.FeedHeader";
  short_name = "FeedHeader";
  c_name = "TransitRealtime__FeedHeader";
  package_name = "transit_realtime";
  n_fields = 4;
  fields = feed_header_fields;
  fields_sorted_by_name = feed_header_indices_by_name;
  n_field_ranges = 1;
  field_ranges = feed_header_number_ranges;
  message_init = feed_header;
}
