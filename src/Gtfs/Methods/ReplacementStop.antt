-- ===== src/Gtfs/Methods/ReplacementStop.antt =====
-- The functions of src/ingestion/gtfs-realtime.pb-c.c for the message replacement_stop.
use telemetrix_db.Base.{ℕ, Option, none, some, List}
use telemetrix_db.Gtfs.{replacement_stop}
use telemetrix_db.Gtfs.Runtime.{Runtime, checked, Methods}

module _ {Msg Buffer Heap : Type 0} (rt : Runtime Msg Buffer Heap) where
  abbrev replacement_stop_get_packed_size : Msg → Option ℕ
  replacement_stop_get_packed_size message =
      checked (rt.base message) replacement_stop (rt.message_get_packed_size message)

  abbrev replacement_stop_pack : Msg → List ℕ → Option (ℕ × List ℕ)
  replacement_stop_pack message out =
      checked (rt.base message) replacement_stop (rt.message_pack message out)

  abbrev replacement_stop_pack_to_buffer : Msg → Buffer → Option (ℕ × Buffer)
  replacement_stop_pack_to_buffer message buffer =
      checked (rt.base message) replacement_stop (rt.message_pack_to_buffer message buffer)

  -- `unpack` of the bytes, with the heap as its allocator.
  abbrev replacement_stop_unpack : Heap → List ℕ → Option Msg × Heap
  replacement_stop_unpack heap bytes = rt.message_unpack replacement_stop heap bytes

  abbrev replacement_stop_free_unpacked : Option Msg → Heap → Option Heap
  replacement_stop_free_unpacked none heap = some heap
  replacement_stop_free_unpacked (some message) heap =
      checked (rt.base message) replacement_stop (rt.message_free_unpacked message heap)

  abbrev pub replacement_stop_methods : Methods Msg Buffer Heap
  replacement_stop_methods = record {
    get_packed_size = replacement_stop_get_packed_size;
    pack = replacement_stop_pack;
    pack_to_buffer = replacement_stop_pack_to_buffer;
    unpack = replacement_stop_unpack;
    free_unpacked = replacement_stop_free_unpacked;
  }
