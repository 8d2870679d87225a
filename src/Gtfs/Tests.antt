-- ===== src/Gtfs/Tests.antt =====
-- The tables at one message and one enum.
use telemetrix_db.Gtfs.{MessageType, EnumType}
use telemetrix_db.Gtfs.Descriptors.{message_descriptor, enum_descriptor}
use telemetrix_db.Gtfs.Schema.{schema}
use telemetrix_db.Gtfs.Consistent
use telemetrix_db.Gtfs.Declared
use telemetrix_db.Base.{ℕ, ◌+◌, ◌-◌, ◌≡◌, refl, some, List, [], ◌∷◌, ◌++◌, map, length, arith}
use telemetrix_db.Gtfs.Fresh
use telemetrix_db.Gtfs.Member.{Message}
use telemetrix_db.Gtfs.Runtime.{Runtime, IsRuntime}
use telemetrix_db.Gtfs.Methods.{TopLevel, methods}
use telemetrix_db.Gtfs.Unpacked.{Accepts, unpack-Accepts}
use telemetrix_db.Gtfs.{EnumValue}
use telemetrix_db.Gtfs.Schema.{names}
use telemetrix_db.Gtfs.Constants.{constants}

message_descriptor-Fits_example :
    Consistent.NumbersFit (message_descriptor MessageType.vehicle_position)
    × Consistent.NamesFit (message_descriptor MessageType.vehicle_position)
message_descriptor-Fits_example = Consistent.message_descriptor-Fits MessageType.vehicle_position

enum_descriptor-ValuesFit_example :
    Consistent.ValuesFit (enum_descriptor EnumType.vehicle_position_occupancy_status)
enum_descriptor-ValuesFit_example =
    Consistent.enum_descriptor-ValuesFit EnumType.vehicle_position_occupancy_status

message_descriptor-Declares_example :
    Declared.Declares
      (message_descriptor MessageType.vehicle_position)
      (schema MessageType.vehicle_position)
message_descriptor-Declares_example =
    Declared.message_descriptor-Declares MessageType.vehicle_position

enum_descriptor-constants_example :
    (map (λ (v : EnumValue). (v.c_name, v.value)) (enum_descriptor EnumType.alert_cause).values
      ≡ constants EnumType.alert_cause)
    × (map (λ (v : EnumValue). (v.name, v.value)) (enum_descriptor EnumType.alert_cause).values
        ≡ names EnumType.alert_cause)
enum_descriptor-constants_example = Declared.enum_descriptor-constants EnumType.alert_cause

abbrev garbage : Message
garbage = record { base = MessageType.alert; values = [] }

init-Agrees_example :
    ((Fresh.init_of MessageType.vehicle_position garbage).base ≡ MessageType.vehicle_position)
    × Fresh.Agrees
        (message_descriptor MessageType.vehicle_position)
        (Fresh.members MessageType.vehicle_position)
        (Fresh.init_of MessageType.vehicle_position garbage)
init-Agrees_example = Fresh.init-Agrees MessageType.vehicle_position garbage

-- A library whose messages are their own bytes, on a heap that counts its blocks.
abbrev counting : Runtime (MessageType × List ℕ) (List ℕ) ℕ
counting = record {
  base = λ m. m.0;
  message_get_packed_size = λ m. length m.1;
  message_pack = λ m out. (length m.1, m.1);
  message_pack_to_buffer = λ m buffer. (length m.1, buffer ++ m.1);
  message_unpack = λ m heap bytes. (some (m, bytes), heap + 1);
  message_free_unpacked = λ m heap. heap - 1;
}

counting-IsRuntime : IsRuntime counting
counting-IsRuntime = record {
  unpacked_base = λ m heap bytes message heap' e. ground arith;
  freed = λ m heap bytes message heap' e. ground arith;
}

unpack-Accepts_example :
    Accepts counting (methods counting TopLevel.feed_message) (MessageType.feed_message, 10 ∷ [])
    × ((methods counting TopLevel.feed_message).free_unpacked
          (some (MessageType.feed_message, 10 ∷ []))
          6
        ≡ some 5)
unpack-Accepts_example =
    unpack-Accepts counting counting-IsRuntime TopLevel.feed_message 5 (10 ∷ []) refl
