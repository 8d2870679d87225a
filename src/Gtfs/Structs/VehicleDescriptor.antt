-- ===== src/Gtfs/Structs/VehicleDescriptor.antt =====
-- The struct of include/gtfs-realtime.pb-c.h for the message vehicle_descriptor, and its initial value.
use telemetrix_db.Base.{List, [], ◌∷◌, ℤ}
use telemetrix_db.Gtfs.{vehicle_descriptor, vehicle_descriptor_wheelchair_accessible}
use telemetrix_db.Gtfs.Member.{Member, Message, member, boolean, chars, enum_of, null, number}

-- The members of the struct, in order, after its `base`.
abbrev pub vehicle_descriptor_members : List Member
vehicle_descriptor_members =
    member "id" chars
    ∷ member "label" chars
    ∷ member "license_plate" chars
    ∷ member "has_wheelchair_accessible" boolean
    ∷ member "wheelchair_accessible" (enum_of vehicle_descriptor_wheelchair_accessible)
    ∷ []

-- The value of its `__INIT` macro.
abbrev pub vehicle_descriptor_init_value : Message
vehicle_descriptor_init_value = record {
  base = vehicle_descriptor;
  values = null ∷ null ∷ null ∷ number (ℤ.pos 0) ∷ number (ℤ.pos 0) ∷ [];
}

-- `transit_realtime__vehicle_descriptor__init`
abbrev pub vehicle_descriptor_init : Message → Message
vehicle_descriptor_init message = vehicle_descriptor_init_value
