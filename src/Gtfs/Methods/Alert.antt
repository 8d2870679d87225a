-- ===== src/Gtfs/Methods/Alert.antt =====
-- The functions of src/ingestion/gtfs-realtime.pb-c.c for the message alert.
use telemetrix_db.Base.{ℕ, Option, none, some, List}
use telemetrix_db.Gtfs.{alert}
use telemetrix_db.Gtfs.Runtime.{Runtime, checked, Methods}

module _ {Msg Buffer Heap : Type 0} (rt : Runtime Msg Buffer Heap) where
  abbrev alert_get_packed_size : Msg → Option ℕ
  alert_get_packed_size message =
      checked (rt.base message) alert (rt.message_get_packed_size message)

  abbrev alert_pack : Msg → List ℕ → Option (ℕ × List ℕ)
  alert_pack message out = checked (rt.base message) alert (rt.message_pack message out)

  abbrev alert_pack_to_buffer : Msg → Buffer → Option (ℕ × Buffer)
  alert_pack_to_buffer message buffer =
      checked (rt.base message) alert (rt.message_pack_to_buffer message buffer)

  -- `unpack` of the bytes, with the heap as its allocator.
  abbrev alert_unpack : Heap → List ℕ → Option Msg × Heap
  alert_unpack heap bytes = rt.message_unpack alert heap bytes

  abbrev alert_free_unpacked : Option Msg → Heap → Option Heap
  alert_free_unpacked none heap = some heap
  alert_free_unpacked (some message) heap =
      checked (rt.base message) alert (rt.message_free_unpacked message heap)

  abbrev pub alert_methods : Methods Msg Buffer Heap
  alert_methods = record {
    get_packed_size = alert_get_packed_size;
    pack = alert_pack;
    pack_to_buffer = alert_pack_to_buffer;
    unpack = alert_unpack;
    free_unpacked = alert_free_unpacked;
  }
