-- ===== src/Gtfs/Methods/Shape.antt =====
-- The functions of src/ingestion/gtfs-realtime.pb-c.c for the message shape.
use telemetrix_db.Base.{ℕ, Option, none, some, List}
use telemetrix_db.Gtfs.{shape}
use telemetrix_db.Gtfs.Runtime.{Runtime, checked, Methods}

module _ {Msg Buffer Heap : Type 0} (rt : Runtime Msg Buffer Heap) where
  abbrev shape_get_packed_size : Msg → Option ℕ
  shape_get_packed_size message =
      checked (rt.base message) shape (rt.message_get_packed_size message)

  abbrev shape_pack : Msg → List ℕ → Option (ℕ × List ℕ)
  shape_pack message out = checked (rt.base message) shape (rt.message_pack message out)

  abbrev shape_pack_to_buffer : Msg → Buffer → Option (ℕ × Buffer)
  shape_pack_to_buffer message buffer =
      checked (rt.base message) shape (rt.message_pack_to_buffer message buffer)

  -- `unpack` of the bytes, with the heap as its allocator.
  abbrev shape_unpack : Heap → List ℕ → Option Msg × Heap
  shape_unpack heap bytes = rt.message_unpack shape heap bytes

  abbrev shape_free_unpacked : Option Msg → Heap → Option Heap
  shape_free_unpacked none heap = some heap
  shape_free_unpacked (some message) heap =
      checked (rt.base message) shape (rt.message_free_unpacked message heap)

  abbrev pub shape_methods : Methods Msg Buffer Heap
  shape_methods = record {
    get_packed_size = shape_get_packed_size;
    pack = shape_pack;
    pack_to_buffer = shape_pack_to_buffer;
    unpack = shape_unpack;
    free_unpacked = shape_free_unpacked;
  }
