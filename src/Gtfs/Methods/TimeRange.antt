-- ===== src/Gtfs/Methods/TimeRange.antt =====
-- The functions of src/ingestion/gtfs-realtime.pb-c.c for the message time_range.
use telemetrix_db.Base.{ℕ, Option, none, some, List}
use telemetrix_db.Gtfs.{time_range}
use telemetrix_db.Gtfs.Runtime.{Runtime, checked, Methods}

module _ {Msg Buffer Heap : Type 0} (rt : Runtime Msg Buffer Heap) where
  abbrev time_range_get_packed_size : Msg → Option ℕ
  time_range_get_packed_size message =
      checked (rt.base message) time_range (rt.message_get_packed_size message)

  abbrev time_range_pack : Msg → List ℕ → Option (ℕ × List ℕ)
  time_range_pack message out = checked (rt.base message) time_range (rt.message_pack message out)

  abbrev time_range_pack_to_buffer : Msg → Buffer → Option (ℕ × Buffer)
  time_range_pack_to_buffer message buffer =
      checked (rt.base message) time_range (rt.message_pack_to_buffer message buffer)

  -- `unpack` of the bytes, with the heap as its allocator.
  abbrev time_range_unpack : Heap → List ℕ → Option Msg × Heap
  time_range_unpack heap bytes = rt.message_unpack time_range heap bytes

  abbrev time_range_free_unpacked : Option Msg → Heap → Option Heap
  time_range_free_unpacked none heap = some heap
  time_range_free_unpacked (some message) heap =
      checked (rt.base message) time_range (rt.message_free_unpacked message heap)

  abbrev pub time_range_methods : Methods Msg Buffer Heap
  time_range_methods = record {
    get_packed_size = time_range_get_packed_size;
    pack = time_range_pack;
    pack_to_buffer = time_range_pack_to_buffer;
    unpack = time_range_unpack;
    free_unpacked = time_range_free_unpacked;
  }
