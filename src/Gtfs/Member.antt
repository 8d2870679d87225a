-- ===== src/Gtfs/Member.antt =====
-- A struct of include/gtfs-realtime.pb-c.h: its members, and what an initialiser gives them.
use telemetrix_db.Base.{String, List, ℤ}
use telemetrix_db.Gtfs.{MessageType, EnumType}

-- The C types of members. `T *` to a message, `T **`, `char *`, `char **`, and arrays of the others.
pub data CType : Type 0 where
  boolean : CType
  size : CType
  int32 : CType
  int64 : CType
  uint32 : CType
  uint64 : CType
  float : CType
  double : CType
  chars : CType
  char_arrays : CType
  enum_of : EnumType → CType
  array_of : CType → CType
  pointer_to : MessageType → CType
  pointers_to : MessageType → CType

pub record Member : Type 0 where
  pub name : String
  pub type : CType

abbrev pub member : String → CType → Member
member n t = record { name = n; type = t }

pub data Value : Type 0 where
  null : Value
  number : ℤ → Value

-- A message: what `base.descriptor` points to, and the values of its members in their order.
pub record Message : Type 0 where
  pub base : MessageType
  pub values : List Value
