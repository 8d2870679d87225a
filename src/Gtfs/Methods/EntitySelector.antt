-- ===== src/Gtfs/Methods/EntitySelector.antt =====
-- The functions of src/ingestion/gtfs-realtime.pb-c.c for the message entity_selector.
use telemetrix_db.Base.{ℕ, Option, none, some, List}
use telemetrix_db.Gtfs.{entity_selector}
use telemetrix_db.Gtfs.Runtime.{Runtime, checked, Methods}

module _ {Msg Buffer Heap : Type 0} (rt : Runtime Msg Buffer Heap) where
  abbrev entity_selector_get_packed_size : Msg → Option ℕ
  entity_selector_get_packed_size message =
      checked (rt.base message) entity_selector (rt.message_get_packed_size message)

  abbrev entity_selector_pack : Msg → List ℕ → Option (ℕ × List ℕ)
  entity_selector_pack message out =
      checked (rt.base message) entity_selector (rt.message_pack message out)

  abbrev entity_selector_pack_to_buffer : Msg → Buffer → Option (ℕ × Buffer)
  entity_selector_pack_to_buffer message buffer =
      checked (rt.base message) entity_selector (rt.message_pack_to_buffer message buffer)

  -- `unpack` of the bytes, with the heap as its allocator.
  abbrev entity_selector_unpack : Heap → List ℕ → Option Msg × Heap
  entity_selector_unpack heap bytes = rt.message_unpack entity_selector heap bytes

  abbrev entity_selector_free_unpacked : Option Msg → Heap → Option Heap
  entity_selector_free_unpacked none heap = some heap
  entity_selector_free_unpacked (some message) heap =
      checked (rt.base message) entity_selector (rt.message_free_unpacked message heap)

  abbrev pub entity_selector_methods : Methods Msg Buffer Heap
  entity_selector_methods = record {
    get_packed_size = entity_selector_get_packed_size;
    pack = entity_selector_pack;
    pack_to_buffer = entity_selector_pack_to_buffer;
    unpack = entity_selector_unpack;
    free_unpacked = entity_selector_free_unpacked;
  }
