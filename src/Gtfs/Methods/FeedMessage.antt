-- ===== src/Gtfs/Methods/FeedMessage.antt =====
-- The functions of src/ingestion/gtfs-realtime.pb-c.c for the message feed_message.
use telemetrix_db.Base.{ℕ, Option, none, some, List}
use telemetrix_db.Gtfs.{feed_message}
use telemetrix_db.Gtfs.Runtime.{Runtime, checked, Methods}

module _ {Msg Buffer Heap : Type 0} (rt : Runtime Msg Buffer Heap) where
  abbrev feed_message_get_packed_size : Msg → Option ℕ
  feed_message_get_packed_size message =
      checked (rt.base message) feed_message (rt.message_get_packed_size message)

  abbrev feed_message_pack : Msg → List ℕ → Option (ℕ × List ℕ)
  feed_message_pack message out =
      checked (rt.base message) feed_message (rt.message_pack message out)

  abbrev feed_message_pack_to_buffer : Msg → Buffer → Option (ℕ × Buffer)
  feed_message_pack_to_buffer message buffer =
      checked (rt.base message) feed_message (rt.message_pack_to_buffer message buffer)

  -- `unpack` of the bytes, with the heap as its allocator.
  abbrev feed_message_unpack : Heap → List ℕ → Option Msg × Heap
  feed_message_unpack heap bytes = rt.message_unpack feed_message heap bytes

  abbrev feed_message_free_unpacked : Option Msg → Heap → Option Heap
  feed_message_free_unpacked none heap = some heap
  feed_message_free_unpacked (some message) heap =
      checked (rt.base message) feed_message (rt.message_free_unpacked message heap)

  abbrev pub feed_message_methods : Methods Msg Buffer Heap
  feed_message_methods = record {
    get_packed_size = feed_message_get_packed_size;
    pack = feed_message_pack;
    pack_to_buffer = feed_message_pack_to_buffer;
    unpack = feed_message_unpack;
    free_unpacked = feed_message_free_unpacked;
  }
