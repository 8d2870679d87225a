-- ===== src/Gtfs/Methods/FeedEntity.antt =====
-- The functions of src/ingestion/gtfs-realtime.pb-c.c for the message feed_entity.
use telemetrix_db.Base.{ℕ, Option, none, some, List}
use telemetrix_db.Gtfs.{feed_entity}
use telemetrix_db.Gtfs.Runtime.{Runtime, checked, Methods}

module _ {Msg Buffer Heap : Type 0} (rt : Runtime Msg Buffer Heap) where
  abbrev feed_entity_get_packed_size : Msg → Option ℕ
  feed_entity_get_packed_size message =
      checked (rt.base message) feed_entity (rt.message_get_packed_size message)

  abbrev feed_entity_pack : Msg → List ℕ → Option (ℕ × List ℕ)
  feed_entity_pack message out = checked (rt.base message) feed_entity (rt.message_pack message out)

  abbrev feed_entity_pack_to_buffer : Msg → Buffer → Option (ℕ × Buffer)
  feed_entity_pack_to_buffer message buffer =
      checked (rt.base message) feed_entity (rt.message_pack_to_buffer message buffer)

  -- `unpack` of the bytes, with the heap as its allocator.
  abbrev feed_entity_unpack : Heap → List ℕ → Option Msg × Heap
  feed_entity_unpack heap bytes = rt.message_unpack feed_entity heap bytes

  abbrev feed_entity_free_unpacked : Option Msg → Heap → Option Heap
  feed_entity_free_unpacked none heap = some heap
  feed_entity_free_unpacked (some message) heap =
      checked (rt.base message) feed_entity (rt.message_free_unpacked message heap)

  abbrev pub feed_entity_methods : Methods Msg Buffer Heap
  feed_entity_methods = record {
    get_packed_size = feed_entity_get_packed_size;
    pack = feed_entity_pack;
    pack_to_buffer = feed_entity_pack_to_buffer;
    unpack = feed_entity_unpack;
    free_unpacked = feed_entity_free_unpacked;
  }
