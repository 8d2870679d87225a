-- ===== src/Gtfs/Structs/Shape.antt =====
-- The struct of include/gtfs-realtime.pb-c.h for the message shape, and its initial value.
use telemetrix_db.Base.{List, [], ◌∷◌}
use telemetrix_db.Gtfs.{shape}
use telemetrix_db.Gtfs.Member.{Member, Message, member, chars, null}

-- The members of the struct, in order, after its `base`.
abbrev pub shape_members : List Member
shape_members = member "shape_id" chars ∷ member "encoded_polyline" chars ∷ []

-- The value of its `__INIT` macro.
abbrev pub shape_init_value : Message
shape_init_value = record { base = shape; values = null ∷ null ∷ [] }

-- `transit_realtime__shape__init`
abbrev pub shape_init : Message → Message
shape_init message = shape_init_value
