-- ===== src/Gtfs/Methods/VehiclePosition.antt =====
-- The functions of src/ingestion/gtfs-realtime.pb-c.c for the message vehicle_position.
use telemetrix_db.Base.{ℕ, Option, none, some, List}
use telemetrix_db.Gtfs.{vehicle_position}
use telemetrix_db.Gtfs.Runtime.{Runtime, checked, Methods}

module _ {Msg Buffer Heap : Type 0} (rt : Runtime Msg Buffer Heap) where
  abbrev vehicle_position_get_packed_size : Msg → Option ℕ
  vehicle_position_get_packed_size message =
      checked (rt.base message) vehicle_position (rt.message_get_packed_size message)

  abbrev vehicle_position_pack : Msg → List ℕ → Option (ℕ × List ℕ)
  vehicle_position_pack message out =
      checked (rt.base message) vehicle_position (rt.message_pack message out)

  abbrev vehicle_position_pack_to_buffer : Msg → Buffer → Option (ℕ × Buffer)
  vehicle_position_pack_to_buffer message buffer =
      checked (rt.base message) vehicle_position (rt.message_pack_to_buffer message buffer)

  -- `unpack` of the bytes, with the heap as its allocator.
  abbrev vehicle_position_unpack : Heap → List ℕ → Option Msg × Heap
  vehicle_position_unpack heap bytes = rt.message_unpack vehicle_position heap bytes

  abbrev vehicle_position_free_unpacked : Option Msg → Heap → Option Heap
  vehicle_position_free_unpacked none heap = some heap
  vehicle_position_free_unpacked (some message) heap =
      checked (rt.base message) vehicle_position (rt.message_free_unpacked message heap)

  abbrev pub vehicle_position_methods : Methods Msg Buffer Heap
  vehicle_position_methods = record {
    get_packed_size = vehicle_position_get_packed_size;
    pack = vehicle_position_pack;
    pack_to_buffer = vehicle_position_pack_to_buffer;
    unpack = vehicle_position_unpack;
    free_unpacked = vehicle_position_free_unpacked;
  }
