-- ===== src/Gtfs/Structs/FeedMessage.antt =====
-- The struct of include/gtfs-realtime.pb-c.h for the message feed_message, and its initial value.
use telemetrix_db.Base.{List, [], ◌∷◌, ℤ}
use telemetrix_db.Gtfs.{feed_entity, feed_header, feed_message}
use telemetrix_db.Gtfs.Member.{Member, Message, member, pointer_to, pointers_to, size, null, number}

-- The members of the struct, in order, after its `base`.
abbrev pub feed_message_members : List Member
feed_message_members =
    member "header" (pointer_to feed_header)
    ∷ member "n_entity" size
    ∷ member "entity" (pointers_to feed_entity)
    ∷ []

-- The value of its `__INIT` macro.
abbrev pub feed_message_init_value : Message
feed_message_init_value = record {
  base = feed_message;
  values = null ∷ number (ℤ.pos 0) ∷ null ∷ [];
}

-- `transit_realtime__feed_message__init`
abbrev pub feed_message_init : Message → Message
feed_message_init message = feed_message_init_value
