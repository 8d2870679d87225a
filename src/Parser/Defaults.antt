-- ===== src/Parser/Defaults.antt =====
-- What the parser stores for a status that the feed leaves out, and the names of these numbers in
-- the tables of src/ingestion/gtfs-realtime.pb-c.c.
use telemetrix_db.Base.{
  ◌≡◌, refl, Bool, false, ◌&&◌, Option, none, some, List, [], ◌∷◌, String, ℤ, length, ◌==◌,
  if◌then◌else◌,
}
use telemetrix_db.Text.{bytes, strncmp_eq}
use telemetrix_db.Buffer.{VehicleData}
use telemetrix_db.Parser.{Position, VehiclePosition, FeedEntity, fill}
use telemetrix_db.Gtfs.{FieldDescriptor, EnumValue, EnumType, MessageType}
use telemetrix_db.Gtfs.Descriptors.{message_descriptor, enum_descriptor}

abbrev same_name : String → String → Bool
same_name a b =
    (length (bytes a) == length (bytes b)) && strncmp_eq (bytes a) (bytes b) (length (bytes a))

-- The value of this name in an enum's table.
abbrev pub value_of : String → List EnumValue → Option ℤ
value_of n [] = none
value_of n (v ∷ vs) =
    let rest = value_of n vs in if same_name v.name n then some (ℤ.pos v.value) else rest

-- The default value of the field of this name in a message's table.
abbrev pub default_of : String → List FieldDescriptor → Option ℤ
default_of n [] = none
default_of n (f ∷ fs) =
    let rest = default_of n fs in if same_name f.name n then f.default_value else rest

module _ {Float : Type 0} (zero_float : Float) where
  -- A record for a vehicle that gives no occupancy status, no current status and no congestion
  -- level has the values NO_DATA_AVAILABLE and UNKNOWN_CONGESTION_LEVEL of the tables, and the
  -- table's default for the current status.
  pub fill-defaults :
      (item : VehicleData Float) (entity : FeedEntity Float) (vehicle : VehiclePosition Float)
      (position : Position Float)
      → vehicle.has_occupancy_status ≡ false
      → vehicle.has_current_status ≡ false
      → vehicle.has_congestion_level ≡ false
      → (value_of "NO_DATA_AVAILABLE"
            (enum_descriptor EnumType.vehicle_position_occupancy_status).values
          ≡ some (fill zero_float item entity vehicle position).occupancy_status)
        × (default_of "current_status" (message_descriptor MessageType.vehicle_position).fields
            ≡ some (fill zero_float item entity vehicle position).current_status)
        × (value_of "UNKNOWN_CONGESTION_LEVEL"
              (enum_descriptor EnumType.vehicle_position_congestion_level).values
            ≡ some (fill zero_float item entity vehicle position).congestion_level)
  unfolding fill strncmp_eq
  fill-defaults item entity vehicle position o c g = (rw o refl, rw c refl, rw g refl)
