-- ===== src/Gtfs/Methods/TripModifications.antt =====
-- The functions of src/ingestion/gtfs-realtime.pb-c.c for the message trip_modifications.
use telemetrix_db.Base.{ℕ, Option, none, some, List}
use telemetrix_db.Gtfs.{trip_modifications}
use telemetrix_db.Gtfs.Runtime.{Runtime, checked, Methods}

module _ {Msg Buffer Heap : Type 0} (rt : Runtime Msg Buffer Heap) where
  abbrev trip_modifications_get_packed_size : Msg → Option ℕ
  trip_modifications_get_packed_size message =
      checked (rt.base message) trip_modifications (rt.message_get_packed_size message)

  abbrev trip_modifications_pack : Msg → List ℕ → Option (ℕ × List ℕ)
  trip_modifications_pack message out =
      checked (rt.base message) trip_modifications (rt.message_pack message out)

  abbrev trip_modifications_pack_to_buffer : Msg → Buffer → Option (ℕ × Buffer)
  trip_modifications_pack_to_buffer message buffer =
      checked (rt.base message) trip_modifications (rt.message_pack_to_buffer message buffer)

  -- `unpack` of the bytes, with the heap as its allocator.
  abbrev trip_modifications_unpack : Heap → List ℕ → Option Msg × Heap
  trip_modifications_unpack heap bytes = rt.message_unpack trip_modifications heap bytes

  abbrev trip_modifications_free_unpacked : Option Msg → Heap → Option Heap
  trip_modifications_free_unpacked none heap = some heap
  trip_modifications_free_unpacked (some message) heap =
      checked (rt.base message) trip_modifications (rt.message_free_unpacked message heap)

  abbrev pub trip_modifications_methods : Methods Msg Buffer Heap
  trip_modifications_methods = record {
    get_packed_size = trip_modifications_get_packed_size;
    pack = trip_modifications_pack;
    pack_to_buffer = trip_modifications_pack_to_buffer;
    unpack = trip_modifications_unpack;
    free_unpacked = trip_modifications_free_unpacked;
  }
