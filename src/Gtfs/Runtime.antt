-- ===== src/Gtfs/Runtime.antt =====
-- The functions of protobuf-c that src/ingestion/gtfs-realtime.pb-c.c calls.
use telemetrix_db.Base.{ℕ, Option, none, some, List, ite, ◌≡◌}
use telemetrix_db.Gtfs.{MessageType}

pub MessageType-discrete : Discrete MessageType
MessageType-discrete = hlevel

-- Messages, output buffers and the heap are the library's. A pointer to a descriptor is the name of its
-- message; `base` reads `message->base.descriptor`.
pub record Runtime (Msg Buffer Heap : Type 0) : Type 0 where
  pub base : Msg → MessageType
  pub message_get_packed_size : Msg → ℕ
  pub message_pack : Msg → List ℕ → ℕ × List ℕ
  pub message_pack_to_buffer : Msg → Buffer → ℕ × Buffer
  pub message_unpack : MessageType → Heap → List ℕ → Option Msg × Heap
  pub message_free_unpacked : Msg → Heap → Heap

-- What the library documents: an unpacked message has the descriptor that it was unpacked by, and
-- freeing it gives back what unpacking it took.
pub record IsRuntime {Msg Buffer Heap : Type 0} (rt : Runtime Msg Buffer Heap) : Type 0 where
  pub unpacked_base :
      (m : MessageType) (heap : Heap) (bytes : List ℕ) (msg : Msg) (heap' : Heap)
      → rt.message_unpack m heap bytes ≡ (some msg, heap')
      → rt.base msg ≡ m
  pub freed :
      (m : MessageType) (heap : Heap) (bytes : List ℕ) (msg : Msg) (heap' : Heap)
      → rt.message_unpack m heap bytes ≡ (some msg, heap')
      → rt.message_free_unpacked msg heap' ≡ heap

-- `assert(message->base.descriptor == &descriptor)` and what follows it; `none` is an abort.
abbrev pub checked : {A : Type 0} → MessageType → MessageType → A → Option A
checked base descriptor a = ite (MessageType-discrete base descriptor) (some a) none

-- The functions of one message.
pub record Methods (Msg Buffer Heap : Type 0) : Type 0 where
  pub get_packed_size : Msg → Option ℕ
  pub pack : Msg → List ℕ → Option (ℕ × List ℕ)
  pub pack_to_buffer : Msg → Buffer → Option (ℕ × Buffer)
  pub unpack : Heap → List ℕ → Option Msg × Heap
  pub free_unpacked : Option Msg → Heap → Option Heap
