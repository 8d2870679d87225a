-- ===== src/Gtfs/Methods/StopSelector.antt =====
-- The functions of src/ingestion/gtfs-realtime.pb-c.c for the message stop_selector.
use telemetrix_db.Base.{ℕ, Option, none, some, List}
use telemetrix_db.Gtfs.{stop_selector}
use telemetrix_db.Gtfs.Runtime.{Runtime, checked, Methods}

module _ {Msg Buffer Heap : Type 0} (rt : Runtime Msg Buffer Heap) where
  abbrev stop_selector_get_packed_size : Msg → Option ℕ
  stop_selector_get_packed_size message =
      checked (rt.base message) stop_selector (rt.message_get_packed_size message)

  abbrev stop_selector_pack : Msg → List ℕ → Option (ℕ × List ℕ)
  stop_selector_pack message out =
      checked (rt.base message) stop_selector (rt.message_pack message out)

  abbrev stop_selector_pack_to_buffer : Msg → Buffer → Option (ℕ × Buffer)
  stop_selector_pack_to_buffer message buffer =
      checked (rt.base message) stop_selector (rt.message_pack_to_buffer message buffer)

  -- `unpack` of the bytes, with the heap as its allocator.
  abbrev stop_selector_unpack : Heap → List ℕ → Option Msg × Heap
  stop_selector_unpack heap bytes = rt.message_unpack stop_selector heap bytes

  abbrev stop_selector_free_unpacked : Option Msg → Heap → Option Heap
  stop_selector_free_unpacked none heap = some heap
  stop_selector_free_unpacked (some message) heap =
      checked (rt.base message) stop_selector (rt.message_free_unpacked message heap)

  abbrev pub stop_selector_methods : Methods Msg Buffer Heap
  stop_selector_methods = record {
    get_packed_size = stop_selector_get_packed_size;
    pack = stop_selector_pack;
    pack_to_buffer = stop_selector_pack_to_buffer;
    unpack = stop_selector_unpack;
    free_unpacked = stop_selector_free_unpacked;
  }
