-- ===== src/Gtfs/Unpacked.antt =====
-- The messages that the functions accept.
use mathlib.Core.Logic.{if_pos}
use telemetrix_db.Base.{ℕ, ◌≡◌, ◌∙◌, refl, sym, ap, none, some, List}
use telemetrix_db.Gtfs.{MessageType}
use telemetrix_db.Gtfs.Runtime.{Runtime, IsRuntime, Methods, checked, MessageType-discrete}
use telemetrix_db.Gtfs.Methods.{TopLevel, type_of, methods}

module _ {Msg Buffer Heap : Type 0} (rt : Runtime Msg Buffer Heap) where
  -- What the functions do with a message of their own type.
  pub record Accepts (ops : Methods Msg Buffer Heap) (message : Msg) : Type 0 where
    pub get_packed_size : ops.get_packed_size message ≡ some (rt.message_get_packed_size message)
    pub pack : (out : List ℕ) → ops.pack message out ≡ some (rt.message_pack message out)
    pub pack_to_buffer :
        (buffer : Buffer)
        → ops.pack_to_buffer message buffer ≡ some (rt.message_pack_to_buffer message buffer)
    pub free_unpacked :
        (heap : Heap)
        → ops.free_unpacked (some message) heap ≡ some (rt.message_free_unpacked message heap)

  checked_lem : {A : Type 0} (b d : MessageType) (a : A) → b ≡ d → checked b d a ≡ some a
  checked_lem b d a e = if_pos (MessageType-discrete b d) e (some a) none

  own_type :
      (k : TopLevel) (message : Msg) → rt.base message ≡ type_of k → Accepts (methods rt k) message
  own_type TopLevel.feed_message message e = record {
    get_packed_size = checked_lem _ _ _ e;
    pack = λ out. checked_lem _ _ _ e;
    pack_to_buffer = λ buffer. checked_lem _ _ _ e;
    free_unpacked = λ heap. checked_lem _ _ _ e;
  }
  own_type TopLevel.feed_header message e = record {
    get_packed_size = checked_lem _ _ _ e;
    pack = λ out. checked_lem _ _ _ e;
    pack_to_buffer = λ buffer. checked_lem _ _ _ e;
    free_unpacked = λ heap. checked_lem _ _ _ e;
  }
  own_type TopLevel.feed_entity message e = record {
    get_packed_size = checked_lem _ _ _ e;
    pack = λ out. checked_lem _ _ _ e;
    pack_to_buffer = λ buffer. checked_lem _ _ _ e;
    free_unpacked = λ heap. checked_lem _ _ _ e;
  }
  own_type TopLevel.trip_update message e = record {
    get_packed_size = checked_lem _ _ _ e;
    pack = λ out. checked_lem _ _ _ e;
    pack_to_buffer = λ buffer. checked_lem _ _ _ e;
    free_unpacked = λ heap. checked_lem _ _ _ e;
  }
  own_type TopLevel.vehicle_position message e = record {
    get_packed_size = checked_lem _ _ _ e;
    pack = λ out. checked_lem _ _ _ e;
    pack_to_buffer = λ buffer. checked_lem _ _ _ e;
    free_unpacked = λ heap. checked_lem _ _ _ e;
  }
  own_type TopLevel.alert message e = record {
    get_packed_size = checked_lem _ _ _ e;
    pack = λ out. checked_lem _ _ _ e;
    pack_to_buffer = λ buffer. checked_lem _ _ _ e;
    free_unpacked = λ heap. checked_lem _ _ _ e;
  }
  own_type TopLevel.time_range message e = record {
    get_packed_size = checked_lem _ _ _ e;
    pack = λ out. checked_lem _ _ _ e;
    pack_to_buffer = λ buffer. checked_lem _ _ _ e;
    free_unpacked = λ heap. checked_lem _ _ _ e;
  }
  own_type TopLevel.position message e = record {
    get_packed_size = checked_lem _ _ _ e;
    pack = λ out. checked_lem _ _ _ e;
    pack_to_buffer = λ buffer. checked_lem _ _ _ e;
    free_unpacked = λ heap. checked_lem _ _ _ e;
  }
  own_type TopLevel.trip_descriptor message e = record {
    get_packed_size = checked_lem _ _ _ e;
    pack = λ out. checked_lem _ _ _ e;
    pack_to_buffer = λ buffer. checked_lem _ _ _ e;
    free_unpacked = λ heap. checked_lem _ _ _ e;
  }
  own_type TopLevel.vehicle_descriptor message e = record {
    get_packed_size = checked_lem _ _ _ e;
    pack = λ out. checked_lem _ _ _ e;
    pack_to_buffer = λ buffer. checked_lem _ _ _ e;
    free_unpacked = λ heap. checked_lem _ _ _ e;
  }
  own_type TopLevel.entity_selector message e = record {
    get_packed_size = checked_lem _ _ _ e;
    pack = λ out. checked_lem _ _ _ e;
    pack_to_buffer = λ buffer. checked_lem _ _ _ e;
    free_unpacked = λ heap. checked_lem _ _ _ e;
  }
  own_type TopLevel.translated_string message e = record {
    get_packed_size = checked_lem _ _ _ e;
    pack = λ out. checked_lem _ _ _ e;
    pack_to_buffer = λ buffer. checked_lem _ _ _ e;
    free_unpacked = λ heap. checked_lem _ _ _ e;
  }
  own_type TopLevel.translated_image message e = record {
    get_packed_size = checked_lem _ _ _ e;
    pack = λ out. checked_lem _ _ _ e;
    pack_to_buffer = λ buffer. checked_lem _ _ _ e;
    free_unpacked = λ heap. checked_lem _ _ _ e;
  }
  own_type TopLevel.shape message e = record {
    get_packed_size = checked_lem _ _ _ e;
    pack = λ out. checked_lem _ _ _ e;
    pack_to_buffer = λ buffer. checked_lem _ _ _ e;
    free_unpacked = λ heap. checked_lem _ _ _ e;
  }
  own_type TopLevel.stop message e = record {
    get_packed_size = checked_lem _ _ _ e;
    pack = λ out. checked_lem _ _ _ e;
    pack_to_buffer = λ buffer. checked_lem _ _ _ e;
    free_unpacked = λ heap. checked_lem _ _ _ e;
  }
  own_type TopLevel.trip_modifications message e = record {
    get_packed_size = checked_lem _ _ _ e;
    pack = λ out. checked_lem _ _ _ e;
    pack_to_buffer = λ buffer. checked_lem _ _ _ e;
    free_unpacked = λ heap. checked_lem _ _ _ e;
  }
  own_type TopLevel.stop_selector message e = record {
    get_packed_size = checked_lem _ _ _ e;
    pack = λ out. checked_lem _ _ _ e;
    pack_to_buffer = λ buffer. checked_lem _ _ _ e;
    free_unpacked = λ heap. checked_lem _ _ _ e;
  }
  own_type TopLevel.replacement_stop message e = record {
    get_packed_size = checked_lem _ _ _ e;
    pack = λ out. checked_lem _ _ _ e;
    pack_to_buffer = λ buffer. checked_lem _ _ _ e;
    free_unpacked = λ heap. checked_lem _ _ _ e;
  }

  unpack_lem :
      (k : TopLevel) (heap : Heap) (bytes : List ℕ)
      → (methods rt k).unpack heap bytes ≡ rt.message_unpack (type_of k) heap bytes
  unpack_lem TopLevel.feed_message heap bytes = refl
  unpack_lem TopLevel.feed_header heap bytes = refl
  unpack_lem TopLevel.feed_entity heap bytes = refl
  unpack_lem TopLevel.trip_update heap bytes = refl
  unpack_lem TopLevel.vehicle_position heap bytes = refl
  unpack_lem TopLevel.alert heap bytes = refl
  unpack_lem TopLevel.time_range heap bytes = refl
  unpack_lem TopLevel.position heap bytes = refl
  unpack_lem TopLevel.trip_descriptor heap bytes = refl
  unpack_lem TopLevel.vehicle_descriptor heap bytes = refl
  unpack_lem TopLevel.entity_selector heap bytes = refl
  unpack_lem TopLevel.translated_string heap bytes = refl
  unpack_lem TopLevel.translated_image heap bytes = refl
  unpack_lem TopLevel.shape heap bytes = refl
  unpack_lem TopLevel.stop heap bytes = refl
  unpack_lem TopLevel.trip_modifications heap bytes = refl
  unpack_lem TopLevel.stop_selector heap bytes = refl
  unpack_lem TopLevel.replacement_stop heap bytes = refl

  -- If protobuf-c keeps its documented contract, a message that `unpack` of a type gave is accepted by
  -- the other functions of the type, with no failed assertion, and freeing it gives the heap back as it
  -- was before.
  pub unpack-Accepts :
      (law : IsRuntime rt) (k : TopLevel) (heap : Heap) (bytes : List ℕ) {message : Msg}
      {heap' : Heap}
      → (methods rt k).unpack heap bytes ≡ (some message, heap')
      → Accepts (methods rt k) message
        × ((methods rt k).free_unpacked (some message) heap' ≡ some heap)
  unpack-Accepts law k heap bytes {message} {heap'} e =
      let e' = sym (unpack_lem k heap bytes) ∙ e in
      let ok = own_type k message (law.unpacked_base (type_of k) heap bytes message heap' e') in
      (ok, ok.free_unpacked heap' ∙ ap some (law.freed (type_of k) heap bytes message heap' e'))
