-- ===== src/Gtfs/Structs/Position.antt =====
-- The struct of include/gtfs-realtime.pb-c.h for the message position, and its initial value.
use telemetrix_db.Base.{List, [], ◌∷◌, ℤ}
use telemetrix_db.Gtfs.{position}
use telemetrix_db.Gtfs.Member.{Member, Message, member, boolean, double, float, number}

-- The members of the struct, in order, after its `base`.
abbrev pub position_members : List Member
position_members =
    member "latitude" float
    ∷ member "longitude" float
    ∷ member "has_bearing" boolean
    ∷ member "bearing" float
    ∷ member "has_odometer" boolean
    ∷ member "odometer" double
    ∷ member "has_speed" boolean
    ∷ member "speed" float
    ∷ []

-- The value of its `__INIT` macro.
abbrev pub position_init_value : Message
position_init_value = record {
  base = position;
  values =
      number (ℤ.pos 0)
      ∷ number (ℤ.pos 0)
      ∷ number (ℤ.pos 0)
      ∷ number (ℤ.pos 0)
      ∷ number (ℤ.pos 0)
      ∷ number (ℤ.pos 0)
      ∷ number (ℤ.pos 0)
      ∷ number (ℤ.pos 0)
      ∷ [];
}

-- `transit_realtime__position__init`
abbrev pub position_init : Message → Message
position_init message = position_init_value
