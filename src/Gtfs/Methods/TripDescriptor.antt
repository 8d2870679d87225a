-- ===== src/Gtfs/Methods/TripDescriptor.antt =====
-- The functions of src/ingestion/gtfs-realtime.pb-c.c for the message trip_descriptor.
use telemetrix_db.Base.{ℕ, Option, none, some, List}
use telemetrix_db.Gtfs.{trip_descriptor}
use telemetrix_db.Gtfs.Runtime.{Runtime, checked, Methods}

module _ {Msg Buffer Heap : Type 0} (rt : Runtime Msg Buffer Heap) where
  abbrev trip_descriptor_get_packed_size : Msg → Option ℕ
  trip_descriptor_get_packed_size message =
      checked (rt.base message) trip_descriptor (rt.message_get_packed_size message)

  abbrev trip_descriptor_pack : Msg → List ℕ → Option (ℕ × List ℕ)
  trip_descriptor_pack message out =
      checked (rt.base message) trip_descriptor (rt.message_pack message out)

  abbrev trip_descriptor_pack_to_buffer : Msg → Buffer → Option (ℕ × Buffer)
  trip_descriptor_pack_to_buffer message buffer =
      checked (rt.base message) trip_descriptor (rt.message_pack_to_buffer message buffer)

  -- `unpack` of the bytes, with the heap as its allocator.
  abbrev trip_descriptor_unpack : Heap → List ℕ → Option Msg × Heap
  trip_descriptor_unpack heap bytes = rt.message_unpack trip_descriptor heap bytes

  abbrev trip_descriptor_free_unpacked : Option Msg → Heap → Option Heap
  trip_descriptor_free_unpacked none heap = some heap
  trip_descriptor_free_unpacked (some message) heap =
      checked (rt.base message) trip_descriptor (rt.message_free_unpacked message heap)

  abbrev pub trip_descriptor_methods : Methods Msg Buffer Heap
  trip_descriptor_methods = record {
    get_packed_size = trip_descriptor_get_packed_size;
    pack = trip_descriptor_pack;
    pack_to_buffer = trip_descriptor_pack_to_buffer;
    unpack = trip_descriptor_unpack;
    free_unpacked = trip_descriptor_free_unpacked;
  }
