-- ===== src/Gtfs/Structs/FeedEntity.antt =====
-- The struct of include/gtfs-realtime.pb-c.h for the message feed_entity, and its initial value.
use telemetrix_db.Base.{List, [], ◌∷◌, ℤ}
use telemetrix_db.Gtfs.{
  alert, feed_entity, shape, stop, trip_modifications, trip_update, vehicle_position,
}
use telemetrix_db.Gtfs.Member.{Member, Message, member, boolean, chars, pointer_to, null, number}

-- The members of the struct, in order, after its `base`.
abbrev pub feed_entity_members : List Member
feed_entity_members =
    member "id" chars
    ∷ member "has_is_deleted" boolean
    ∷ member "is_deleted" boolean
    ∷ member "trip_update" (pointer_to trip_update)
    ∷ member "vehicle" (pointer_to vehicle_position)
    ∷ member "alert" (pointer_to alert)
    ∷ member "shape" (pointer_to shape)
    ∷ member "stop" (pointer_to stop)
    ∷ member "trip_modifications" (pointer_to trip_modifications)
    ∷ []

-- The value of its `__INIT` macro.
abbrev pub feed_entity_init_value : Message
feed_entity_init_value = record {
  base = feed_entity;
  values =
      null ∷ number (ℤ.pos 0) ∷ number (ℤ.pos 0) ∷ null ∷ null ∷ null ∷ null ∷ null ∷ null ∷ [];
}

-- `transit_realtime__feed_entity__init`
abbrev pub feed_entity_init : Message → Message
feed_entity_init message = feed_entity_init_value
