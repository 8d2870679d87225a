-- ===== src/Gtfs/Methods/Stop.antt =====
-- The functions of src/ingestion/gtfs-realtime.pb-c.c for the message stop.
use telemetrix_db.Base.{ℕ, Option, none, some, List}
use telemetrix_db.Gtfs.{stop}
use telemetrix_db.Gtfs.Runtime.{Runtime, checked, Methods}

module _ {Msg Buffer Heap : Type 0} (rt : Runtime Msg Buffer Heap) where
  abbrev stop_get_packed_size : Msg → Option ℕ
  stop_get_packed_size message = checked (rt.base message) stop (rt.message_get_packed_size message)

  abbrev stop_pack : Msg → List ℕ → Option (ℕ × List ℕ)
  stop_pack message out = checked (rt.base message) stop (rt.message_pack message out)

  abbrev stop_pack_to_buffer : Msg → Buffer → Option (ℕ × Buffer)
  stop_pack_to_buffer message buffer =
      checked (rt.base message) stop (rt.message_pack_to_buffer message buffer)

  -- `unpack` of the bytes, with the heap as its allocator.
  abbrev stop_unpack : Heap → List ℕ → Option Msg × Heap
  stop_unpack heap bytes = rt.message_unpack stop heap bytes

  abbrev stop_free_unpacked : Option Msg → Heap → Option Heap
  stop_free_unpacked none heap = some heap
  stop_free_unpacked (some message) heap =
      checked (rt.base message) stop (rt.message_free_unpacked message heap)

  abbrev pub stop_methods : Methods Msg Buffer Heap
  stop_methods = record {
    get_packed_size = stop_get_packed_size;
    pack = stop_pack;
    pack_to_buffer = stop_pack_to_buffer;
    unpack = stop_unpack;
    free_unpacked = stop_free_unpacked;
  }
