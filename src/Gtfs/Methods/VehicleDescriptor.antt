-- ===== src/Gtfs/Methods/VehicleDescriptor.antt =====
-- The functions of src/ingestion/gtfs-realtime.pb-c.c for the message vehicle_descriptor.
use telemetrix_db.Base.{ℕ, Option, none, some, List}
use telemetrix_db.Gtfs.{vehicle_descriptor}
use telemetrix_db.Gtfs.Runtime.{Runtime, checked, Methods}

module _ {Msg Buffer Heap : Type 0} (rt : Runtime Msg Buffer Heap) where
  abbrev vehicle_descriptor_get_packed_size : Msg → Option ℕ
  vehicle_descriptor_get_packed_size message =
      checked (rt.base message) vehicle_descriptor (rt.message_get_packed_size message)

  abbrev vehicle_descriptor_pack : Msg → List ℕ → Option (ℕ × List ℕ)
  vehicle_descriptor_pack message out =
      checked (rt.base message) vehicle_descriptor (rt.message_pack message out)

  abbrev vehicle_descriptor_pack_to_buffer : Msg → Buffer → Option (ℕ × Buffer)
  vehicle_descriptor_pack_to_buffer message buffer =
      checked (rt.base message) vehicle_descriptor (rt.message_pack_to_buffer message buffer)

  -- `unpack` of the bytes, with the heap as its allocator.
  abbrev vehicle_descriptor_unpack : Heap → List ℕ → Option Msg × Heap
  vehicle_descriptor_unpack heap bytes = rt.message_unpack vehicle_descriptor heap bytes

  abbrev vehicle_descriptor_free_unpacked : Option Msg → Heap → Option Heap
  vehicle_descriptor_free_unpacked none heap = some heap
  vehicle_descriptor_free_unpacked (some message) heap =
      checked (rt.base message) vehicle_descriptor (rt.message_free_unpacked message heap)

  abbrev pub vehicle_descriptor_methods : Methods Msg Buffer Heap
  vehicle_descriptor_methods = record {
    get_packed_size = vehicle_descriptor_get_packed_size;
    pack = vehicle_descriptor_pack;
    pack_to_buffer = vehicle_descriptor_pack_to_buffer;
    unpack = vehicle_descriptor_unpack;
    free_unpacked = vehicle_descriptor_free_unpacked;
  }
