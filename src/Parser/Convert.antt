-- ===== src/Parser/Convert.antt =====
-- What a record says of the vehicle that it was built from.
use telemetrix_db.Base.{
  ℕ, ◌-◌, ◌^◌, ◌<◌, ◌≡◌, ◌↔◌, ◌⊎◌, refl, ap, false, Option, none, some, List, length, ℤ, take,
  arith,
}
use telemetrix_db.Text.{c_string}
use telemetrix_db.Text.Laws.{IsText, length-copy_field, c_string-copy_field, copy_field-fresh}
use telemetrix_db.Buffer.{VehicleData}
use telemetrix_db.Parser.{
  CharPtr, FeedEntity, VehiclePosition, Position, unknown, or_else, label_of, id_of, route_of, fill,
  fill_position, fill_vehicle, convert,
}

-- The character arrays have the sizes of the declarations in buffer.h.
pub record HasSizes {Float : Type 0} (item : VehicleData Float) : Type 0 where
  pub fleet_number : length item.fleet_number ≡ 16
  pub internal_id : length item.internal_id ≡ 16
  pub route_id : length item.route_id ≡ 16
  pub stop_id : length item.stop_id ≡ 32

abbrev pub IsTextPtr : CharPtr → Type 0
IsTextPtr none = Unit
IsTextPtr (some s) = IsText s

-- The strings of a message end at their NUL.
pub record HasTexts {Float : Type 0} (entity : FeedEntity Float) (vehicle : VehiclePosition Float)
    : Type 0 where
  pub id : IsTextPtr entity.id
  pub label : IsTextPtr (label_of vehicle.vehicle)
  pub internal_id : IsTextPtr (id_of vehicle.vehicle)
  pub route_id : IsTextPtr (route_of vehicle.trip)
  pub stop_id : IsTextPtr vehicle.stop_id

or_else-IsText : (p : CharPtr) (s : List ℕ) → IsTextPtr p → IsText s → IsText (or_else p s)
or_else-IsText none s hp hs = hs
or_else-IsText (some t) s hp hs = hp

unknown-IsText : IsText unknown
unknown-IsText = omega arith

-- The four texts of a record: arrays of the declared sizes, that read back as these strings.
pub record ReadsAs {Float : Type 0} (item : VehicleData Float) (fleet internal route stop : List ℕ)
    : Type 0 where
  pub sizes : HasSizes item
  pub fleet_number : c_string item.fleet_number ≡ take 15 fleet
  pub internal_id : c_string item.internal_id ≡ take 15 internal
  pub route_id : c_string item.route_id ≡ take 15 route
  pub stop_id : c_string item.stop_id ≡ take 31 stop

module _ {Float : Type 0} (zero_float : Float) where
  -- The texts of a record, read back from arrays of the declared sizes: the label, else the
  -- entity's id; the vehicle's id; the trip's route; the stop's id; each UNKNOWN if it is missing,
  -- and cut to 15 bytes (the stop to 31).
  pub fill-ReadsAs :
      (item : VehicleData Float) (entity : FeedEntity Float) (vehicle : VehiclePosition Float)
      (position : Position Float)
      → HasSizes item
      → HasTexts entity vehicle
      → ReadsAs
          (fill zero_float item entity vehicle position)
          (or_else (label_of vehicle.vehicle) (or_else entity.id unknown))
          (or_else (id_of vehicle.vehicle) unknown)
          (or_else (route_of vehicle.trip) unknown)
          (or_else vehicle.stop_id unknown)
  unfolding fill
  fill-ReadsAs item entity vehicle position z t = record {
    sizes = record {
      fleet_number = length-copy_field 15 _ _ z.fleet_number;
      internal_id = length-copy_field 15 _ _ z.internal_id;
      route_id = length-copy_field 15 _ _ z.route_id;
      stop_id = length-copy_field 31 _ _ z.stop_id;
    };
    fleet_number =
        c_string-copy_field 15 _ _ z.fleet_number
          (or_else-IsText _ _ t.label (or_else-IsText _ _ t.id unknown-IsText));
    internal_id =
        c_string-copy_field 15 _ _ z.internal_id (or_else-IsText _ _ t.internal_id unknown-IsText);
    route_id = c_string-copy_field 15 _ _ z.route_id (or_else-IsText _ _ t.route_id unknown-IsText);
    stop_id = c_string-copy_field 31 _ _ z.stop_id (or_else-IsText _ _ t.stop_id unknown-IsText);
  }

  fill-fresh :
      (item item' : VehicleData Float) (entity : FeedEntity Float) (vehicle : VehiclePosition Float)
      (position : Position Float)
      → HasSizes item
      → HasSizes item'
      → fill zero_float item entity vehicle position ≡ fill zero_float item' entity vehicle position
  unfolding fill
  fill-fresh item item' entity vehicle position z z' = cc (
    copy_field-fresh 15 item.fleet_number item'.fleet_number
        (or_else (label_of vehicle.vehicle) (or_else entity.id unknown)) z.fleet_number
        z'.fleet_number,
    copy_field-fresh 15 item.internal_id item'.internal_id (or_else (id_of vehicle.vehicle) unknown)
        z.internal_id z'.internal_id,
    copy_field-fresh 15 item.route_id item'.route_id (or_else (route_of vehicle.trip) unknown)
        z.route_id z'.route_id,
    copy_field-fresh 31 item.stop_id item'.stop_id (or_else vehicle.stop_id unknown) z.stop_id
        z'.stop_id,
  )

  -- Nothing of the uninitialised local reaches the record, nor the choice to build one.
  pub convert-fresh :
      (item item' : VehicleData Float) (entity : FeedEntity Float)
      → HasSizes item
      → HasSizes item'
      → convert zero_float item entity ≡ convert zero_float item' entity
  unfolding convert
  convert-fresh item item' entity z z' = go entity.vehicle
    where
      at_position :
          (v : VehiclePosition Float) (p : Option (Position Float))
          → fill_position zero_float item entity v p ≡ fill_position zero_float item' entity v p
      at_position v none = refl
      at_position v (some p) = ap some (fill-fresh item item' entity v p z z')

      go :
          (v : Option (VehiclePosition Float))
          → fill_vehicle zero_float item entity v ≡ fill_vehicle zero_float item' entity v
      go none = refl
      go (some v) = at_position v v.position

  -- If the percentage of the feed is a `uint32_t`, that of a record is -1 exactly if the feed gave
  -- none or gave 2 ^ 32 - 1.
  pub percentage_missing_iff :
      (item : VehicleData Float) (entity : FeedEntity Float) (vehicle : VehiclePosition Float)
      (position : Position Float)
      → vehicle.occupancy_percentage < 2 ^ 32
      → ((fill zero_float item entity vehicle position).occupancy_percentage ≡ ℤ.negsuc 0)
        ↔ ((vehicle.has_occupancy_percentage ≡ false) ⊎ (vehicle.occupancy_percentage ≡ 2 ^ 32 - 1))
  unfolding fill
  percentage_missing_iff item entity vehicle position small = (λ h. ground arith, λ h. ground arith)
