-- ===== src/Gtfs/Methods/TripUpdate.antt =====
-- The functions of src/ingestion/gtfs-realtime.pb-c.c for the message trip_update.
use telemetrix_db.Base.{ℕ, Option, none, some, List}
use telemetrix_db.Gtfs.{trip_update}
use telemetrix_db.Gtfs.Runtime.{Runtime, checked, Methods}

module _ {Msg Buffer Heap : Type 0} (rt : Runtime Msg Buffer Heap) where
  abbrev trip_update_get_packed_size : Msg → Option ℕ
  trip_update_get_packed_size message =
      checked (rt.base message) trip_update (rt.message_get_packed_size message)

  abbrev trip_update_pack : Msg → List ℕ → Option (ℕ × List ℕ)
  trip_update_pack message out = checked (rt.base message) trip_update (rt.message_pack message out)

  abbrev trip_update_pack_to_buffer : Msg → Buffer → Option (ℕ × Buffer)
  trip_update_pack_to_buffer message buffer =
      checked (rt.base message) trip_update (rt.message_pack_to_buffer message buffer)

  -- `unpack` of the bytes, with the heap as its allocator.
  abbrev trip_update_unpack : Heap → List ℕ → Option Msg × Heap
  trip_update_unpack heap bytes = rt.message_unpack trip_update heap bytes

  abbrev trip_update_free_unpacked : Option Msg → Heap → Option Heap
  trip_update_free_unpacked none heap = some heap
  trip_update_free_unpacked (some message) heap =
      checked (rt.base message) trip_update (rt.message_free_unpacked message heap)

  abbrev pub trip_update_methods : Methods Msg Buffer Heap
  trip_update_methods = record {
    get_packed_size = trip_update_get_packed_size;
    pack = trip_update_pack;
    pack_to_buffer = trip_update_pack_to_buffer;
    unpack = trip_update_unpack;
    free_unpacked = trip_update_free_unpacked;
  }
