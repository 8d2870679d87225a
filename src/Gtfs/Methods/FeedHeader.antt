-- ===== src/Gtfs/Methods/FeedHeader.antt =====
-- The functions of src/ingestion/gtfs-realtime.pb-c.c for the message feed_header.
use telemetrix_db.Base.{ℕ, Option, none, some, List}
use telemetrix_db.Gtfs.{feed_header}
use telemetrix_db.Gtfs.Runtime.{Runtime, checked, Methods}

module _ {Msg Buffer Heap : Type 0} (rt : Runtime Msg Buffer Heap) where
  abbrev feed_header_get_packed_size : Msg → Option ℕ
  feed_header_get_packed_size message =
      checked (rt.base message) feed_header (rt.message_get_packed_size message)

  abbrev feed_header_pack : Msg → List ℕ → Option (ℕ × List ℕ)
  feed_header_pack message out = checked (rt.base message) feed_header (rt.message_pack message out)

  abbrev feed_header_pack_to_buffer : Msg → Buffer → Option (ℕ × Buffer)
  feed_header_pack_to_buffer message buffer =
      checked (rt.base message) feed_header (rt.message_pack_to_buffer message buffer)

  -- `unpack` of the bytes, with the heap as its allocator.
  abbrev feed_header_unpack : Heap → List ℕ → Option Msg × Heap
  feed_header_unpack heap bytes = rt.message_unpack feed_header heap bytes

  abbrev feed_header_free_unpacked : Option Msg → Heap → Option Heap
  feed_header_free_unpacked none heap = some heap
  feed_header_free_unpacked (some message) heap =
      checked (rt.base message) feed_header (rt.message_free_unpacked message heap)

  abbrev pub feed_header_methods : Methods Msg Buffer Heap
  feed_header_methods = record {
    get_packed_size = feed_header_get_packed_size;
    pack = feed_header_pack;
    pack_to_buffer = feed_header_pack_to_buffer;
    unpack = feed_header_unpack;
    free_unpacked = feed_header_free_unpacked;
  }
