-- ===== src/Gtfs/Structs/FeedHeader.antt =====
-- The struct of include/gtfs-realtime.pb-c.h for the message feed_header, and its initial value.
use telemetrix_db.Base.{List, [], ◌∷◌, ℤ}
use telemetrix_db.Gtfs.{feed_header, feed_header_incrementality}
use telemetrix_db.Gtfs.Member.{
  Member, Message, member, boolean, chars, enum_of, uint64, null, number,
}

-- The members of the struct, in order, after its `base`.
abbrev pub feed_header_members : List Member
feed_header_members =
    member "gtfs_realtime_version" chars
    ∷ member "has_incrementality" boolean
    ∷ member "incrementality" (enum_of feed_header_incrementality)
    ∷ member "has_timestamp" boolean
    ∷ member "timestamp" uint64
    ∷ member "feed_version" chars
    ∷ []

-- The value of its `__INIT` macro.
abbrev pub feed_header_init_value : Message
feed_header_init_value = record {
  base = feed_header;
  values =
      null ∷ number (ℤ.pos 0) ∷ number (ℤ.pos 0) ∷ number (ℤ.pos 0) ∷ number (ℤ.pos 0) ∷ null ∷ [];
}

-- `transit_realtime__feed_header__init`
abbrev pub feed_header_init : Message → Message
feed_header_init message = feed_header_init_value
