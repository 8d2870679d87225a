-- ===== src/Gtfs/Declaration.antt =====
-- A field as proto/gtfs-realtime.proto declares it.
use telemetrix_db.Base.{ℕ, Option, String, ℤ}
use telemetrix_db.Gtfs.{Label, FieldType, Target}

-- `<label> <type> <name> = <number> [default = <default>];`
pub record Declaration : Type 0 where
  name : String
  pub number : ℕ
  label : Label
  type : FieldType
  target : Target
  default : Option ℤ

abbrev pub declared : String → ℕ → Label → FieldType → Target → Option ℤ → Declaration
declared n i l t d v = record { name = n; number = i; label = l; type = t; target = d; default = v }
