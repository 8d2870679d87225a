-- ===== src/Gtfs/Structs/TimeRange.antt =====
-- The struct of include/gtfs-realtime.pb-c.h for the message time_range, and its initial value.
use telemetrix_db.Base.{List, [], ◌∷◌, ℤ}
use telemetrix_db.Gtfs.{time_range}
use telemetrix_db.Gtfs.Member.{Member, Message, member, boolean, uint64, number}

-- The members of the struct, in order, after its `base`.
abbrev pub time_range_members : List Member
time_range_members =
    member "has_start" boolean
    ∷ member "start" uint64
    ∷ member "has_end" boolean
    ∷ member "end" uint64
    ∷ []

-- The value of its `__INIT` macro.
abbrev pub time_range_init_value : Message
time_range_init_value = record {
  base = time_range;
  values = number (ℤ.pos 0) ∷ number (ℤ.pos 0) ∷ number (ℤ.pos 0) ∷ number (ℤ.pos 0) ∷ [];
}

-- `transit_realtime__time_range__init`
abbrev pub time_range_init : Message → Message
time_range_init message = time_range_init_value
