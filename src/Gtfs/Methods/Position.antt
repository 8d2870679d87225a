-- ===== src/Gtfs/Methods/Position.antt =====
-- The functions of src/ingestion/gtfs-realtime.pb-c.c for the message position.
use telemetrix_db.Base.{ℕ, Option, none, some, List}
use telemetrix_db.Gtfs.{position}
use telemetrix_db.Gtfs.Runtime.{Runtime, checked, Methods}

module _ {Msg Buffer Heap : Type 0} (rt : Runtime Msg Buffer Heap) where
  abbrev position_get_packed_size : Msg → Option ℕ
  position_get_packed_size message =
      checked (rt.base message) position (rt.message_get_packed_size message)

  abbrev position_pack : Msg → List ℕ → Option (ℕ × List ℕ)
  position_pack message out = checked (rt.base message) position (rt.message_pack message out)

  abbrev position_pack_to_buffer : Msg → Buffer → Option (ℕ × Buffer)
  position_pack_to_buffer message buffer =
      checked (rt.base message) position (rt.message_pack_to_buffer message buffer)

  -- `unpack` of the bytes, with the heap as its allocator.
  abbrev position_unpack : Heap → List ℕ → Option Msg × Heap
  position_unpack heap bytes = rt.message_unpack position heap bytes

  abbrev position_free_unpacked : Option Msg → Heap → Option Heap
  position_free_unpacked none heap = some heap
  position_free_unpacked (some message) heap =
      checked (rt.base message) position (rt.message_free_unpacked message heap)

  abbrev pub position_methods : Methods Msg Buffer Heap
  position_methods = record {
    get_packed_size = position_get_packed_size;
    pack = position_pack;
    pack_to_buffer = position_pack_to_buffer;
    unpack = position_unpack;
    free_unpacked = position_free_unpacked;
  }
