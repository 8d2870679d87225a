-- ===== src/Gtfs/Structs/EntitySelector.antt =====
-- The struct of include/gtfs-realtime.pb-c.h for the message entity_selector, and its initial value.
use telemetrix_db.Base.{List, [], ◌∷◌, ℤ}
use telemetrix_db.Gtfs.{entity_selector, trip_descriptor}
use telemetrix_db.Gtfs.Member.{
  Member, Message, member, boolean, chars, int32, pointer_to, uint32, null, number,
}

-- The members of the struct, in order, after its `base`.
abbrev pub entity_selector_members : List Member
entity_selector_members =
    member "agency_id" chars
    ∷ member "route_id" chars
    ∷ member "has_route_type" boolean
    ∷ member "route_type" int32
    ∷ member "trip" (pointer_to trip_descriptor)
    ∷ member "stop_id" chars
    ∷ member "has_direction_id" boolean
    ∷ member "direction_id" uint32
    ∷ []

-- The value of its `__INIT` macro.
abbrev pub entity_selector_init_value : Message
entity_selector_init_value = record {
  base = entity_selector;
  values =
      null
      ∷ null
      ∷ number (ℤ.pos 0)
      ∷ number (ℤ.pos 0)
      ∷ null
      ∷ null
      ∷ number (ℤ.pos 0)
      ∷ number (ℤ.pos 0)
      ∷ [];
}

-- `transit_realtime__entity_selector__init`
abbrev pub entity_selector_init : Message → Message
entity_selector_init message = entity_selector_init_value
