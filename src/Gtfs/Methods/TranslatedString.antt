-- ===== src/Gtfs/Methods/TranslatedString.antt =====
-- The functions of src/ingestion/gtfs-realtime.pb-c.c for the message translated_string.
use telemetrix_db.Base.{ℕ, Option, none, some, List}
use telemetrix_db.Gtfs.{translated_string}
use telemetrix_db.Gtfs.Runtime.{Runtime, checked, Methods}

module _ {Msg Buffer Heap : Type 0} (rt : Runtime Msg Buffer Heap) where
  abbrev translated_string_get_packed_size : Msg → Option ℕ
  translated_string_get_packed_size message =
      checked (rt.base message) translated_string (rt.message_get_packed_size message)

  abbrev translated_string_pack : Msg → List ℕ → Option (ℕ × List ℕ)
  translated_string_pack message out =
      checked (rt.base message) translated_string (rt.message_pack message out)

  abbrev translated_string_pack_to_buffer : Msg → Buffer → Option (ℕ × Buffer)
  translated_string_pack_to_buffer message buffer =
      checked (rt.base message) translated_string (rt.message_pack_to_buffer message buffer)

  -- `unpack` of the bytes, with the heap as its allocator.
  abbrev translated_string_unpack : Heap → List ℕ → Option Msg × Heap
  translated_string_unpack heap bytes = rt.message_unpack translated_string heap bytes

  abbrev translated_string_free_unpacked : Option Msg → Heap → Option Heap
  translated_string_free_unpacked none heap = some heap
  translated_string_free_unpacked (some message) heap =
      checked (rt.base message) translated_string (rt.message_free_unpacked message heap)

  abbrev pub translated_string_methods : Methods Msg Buffer Heap
  translated_string_methods = record {
    get_packed_size = translated_string_get_packed_size;
    pack = translated_string_pack;
    pack_to_buffer = translated_string_pack_to_buffer;
    unpack = translated_string_unpack;
    free_unpacked = translated_string_free_unpacked;
  }
