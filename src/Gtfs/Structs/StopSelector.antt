-- ===== src/Gtfs/Structs/StopSelector.antt =====
-- The struct of include/gtfs-realtime.pb-c.h for the message stop_selector, and its initial value.
use telemetrix_db.Base.{List, [], ◌∷◌, ℤ}
use telemetrix_db.Gtfs.{stop_selector}
use telemetrix_db.Gtfs.Member.{Member, Message, member, boolean, chars, uint32, null, number}

-- The members of the struct, in order, after its `base`.
abbrev pub stop_selector_members : List Member
stop_selector_members =
    member "has_stop_sequence" boolean ∷ member "stop_sequence" uint32 ∷ member "stop_id" chars ∷ []

-- The value of its `__INIT` macro.
abbrev pub stop_selector_init_value : Message
stop_selector_init_value = record {
  base = stop_selector;
  values = number (ℤ.pos 0) ∷ number (ℤ.pos 0) ∷ null ∷ [];
}

-- `transit_realtime__stop_selector__init`
abbrev pub stop_selector_init : Message → Message
stop_selector_init message = stop_selector_init_value
