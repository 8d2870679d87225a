-- ===== src/Buffer.antt =====
-- include/buffer.h and src/ingestion/buffer.c: the bounded ring buffer between the ingestion thread
-- and the consumer. This file holds the critical sections, the code that runs while `rb->lock` is
-- held; `Threads` splits the functions at their calls of pthreads and interleaves them.
pub mod Valid
pub mod Spec
pub mod Refine
pub mod Threads
mod Tests
use telemetrix_db.Base.{
  ℕ, ◌+◌, ◌-◌, ◌%◌, Bool, true, false, not, ◌&&◌, Option, none, some, List, [], ◌∷◌, ◌==◌,
  if◌then◌else◌, get_elem?, set, ℤ,
}

-- `VehicleData`. `Float` is C's `float`; a character array is the list of its bytes.
pub record VehicleData (Float : Type 0) : Type 0 where
  pub fleet_number : List ℕ
  pub internal_id : List ℕ
  pub route_id : List ℕ
  pub lat : Float
  pub lon : Float
  pub speed : Float
  pub occupancy_status : ℤ
  pub occupancy_percentage : ℤ
  pub bearing : Float
  pub timestamp : ℕ
  pub current_status : ℤ
  pub congestion_level : ℤ
  pub stop_id : List ℕ

-- `RingBuffer` without its pthread fields. The array is only moved in and out, so its elements are
-- of any type; in the program they are `VehicleData`. An `int` is a number: none is ever negative.
pub record RingBuffer (A : Type 0) : Type 0 where
  pub buf : List A
  pub capacity : ℕ
  pub head : ℕ
  pub tail : ℕ
  pub count : ℕ
  pub shutdown : Bool

-- What a call does when it has the lock and tests its condition for the first time.
pub data Outcome (A R : Type 0) : Type 0 where
  blocks : Outcome A R
  returns : R → RingBuffer A → Outcome A R

-- What is live of what `buffer_init` asks for: blocks of the heap, mutexes, condition variables.
pub record Resources : Type 0 where
  pub blocks : ℕ
  pub mutexes : ℕ
  pub conditions : ℕ

abbrev pub new_block : Resources → Resources
new_block live = record live { blocks = live.blocks + 1 }

abbrev pub free_block : Resources → Resources
free_block live = record live { blocks = live.blocks - 1 }

-- The three calls of pthreads in `buffer_init`, and those in `buffer_destroy`.
abbrev pub new_locks : Resources → Resources
new_locks live = record live { mutexes = live.mutexes + 1; conditions = live.conditions + 1 + 1 }

abbrev pub destroy_locks : Resources → Resources
destroy_locks live = record live {
  mutexes = live.mutexes - 1;
  conditions = live.conditions - 1 - 1;
}

module _ {A : Type 0} where
  -- The two allocations: whether the first succeeds, and the block that the second returns, with
  -- whatever it holds. The result is null if one of them fails; then the first is freed.
  unfoldable pub buffer_init :
      Bool → Option (List A) → ℕ → Resources → Option (RingBuffer A) × Resources
  buffer_init false block capacity live = (none, live)
  buffer_init true none capacity live = (none, free_block (new_block live))
  buffer_init true (some block) capacity live = (
    some (record {
      buf = block;
      capacity = capacity;
      head = 0;
      tail = 0;
      count = 0;
      shutdown = false;
    }),
    new_locks (new_block (new_block live)),
  )

  unfoldable pub buffer_destroy : Option (RingBuffer A) → Resources → Resources
  buffer_destroy none live = live
  buffer_destroy (some rb) live = free_block (free_block (destroy_locks live))

  -- The condition of the `while` in `buffer_push`.
  abbrev pub push_waits : RingBuffer A → Bool
  push_waits rb = (rb.count == rb.capacity) && not rb.shutdown

  -- The write of `buffer_push`. A write out of range changes nothing here; `Valid` rules it out.
  abbrev pub push_write : A → RingBuffer A → RingBuffer A
  push_write item rb = record rb {
    buf = set rb.buf rb.head item;
    head = (rb.head + 1) % rb.capacity;
    count = rb.count + 1;
  }

  unfoldable pub buffer_push : A → RingBuffer A → Outcome A Bool
  buffer_push item rb =
      if push_waits rb
      then blocks
      else if rb.shutdown
      then returns false rb
      else returns true (push_write item rb)

  -- The condition of the `while` in `buffer_pop`.
  abbrev pub pop_waits : RingBuffer A → Bool
  pop_waits rb = (rb.count == 0) && not rb.shutdown

  -- The test after it: shut down and drained.
  abbrev pub pop_refuses : RingBuffer A → Bool
  pop_refuses rb = rb.shutdown && (rb.count == 0)

  abbrev pub pop_read : RingBuffer A → Option A
  pop_read rb = get_elem? rb.buf rb.tail

  abbrev pub pop_advance : RingBuffer A → RingBuffer A
  pop_advance rb = record rb { tail = (rb.tail + 1) % rb.capacity; count = rb.count - 1 }

  -- The option is what is stored through `item`: nothing when the call returns false.
  unfoldable pub buffer_pop : RingBuffer A → Outcome A (Bool × Option A)
  buffer_pop rb =
      if pop_waits rb
      then blocks
      else if pop_refuses rb
      then returns (false, none) rb
      else returns (true, pop_read rb) (pop_advance rb)

  abbrev pub set_shutdown : RingBuffer A → RingBuffer A
  set_shutdown rb = record rb { shutdown = true }

  unfoldable pub buffer_signal_shutdown : RingBuffer A → Outcome A (Unit {0})
  buffer_signal_shutdown rb = returns tt (set_shutdown rb)

  unfoldable pub buffer_is_shutdown : RingBuffer A → Outcome A Bool
  buffer_is_shutdown rb = returns rb.shutdown rb

-- A client's calls, and what each gives back. A call that blocks is tried again later by the
-- client, so that the calls of other threads may come in between.
pub data Call (A : Type 0) : Type 0 where
  push : A → Call A
  pop : Call A
  signal_shutdown : Call A
  is_shutdown : Call A

pub data Reply (A : Type 0) : Type 0 where
  blocked : Reply A
  answer : Bool → Reply A
  item : Bool → Option A → Reply A
  done : Reply A

module _ {A : Type 0} where
  -- One call: its reply, and the buffer after it.
  pub call : RingBuffer A → Call A → Reply A × RingBuffer A
  unfolding buffer_push buffer_pop buffer_signal_shutdown buffer_is_shutdown
  call rb (push x) = elim (buffer_push x rb) [
    | blocks ↦ (blocked, rb)
    | returns b rb' ↦ (answer b, rb')
  ]
  call rb pop = elim (buffer_pop rb) [
    | blocks ↦ (blocked, rb)
    | returns r rb' ↦ (item r.0 r.1, rb')
  ]
  call rb signal_shutdown = elim (buffer_signal_shutdown rb) [
    | blocks ↦ (blocked, rb)
    | returns r rb' ↦ (done, rb')
  ]
  call rb is_shutdown = elim (buffer_is_shutdown rb) [
    | blocks ↦ (blocked, rb)
    | returns b rb' ↦ (answer b, rb')
  ]

  pub run : RingBuffer A → List (Call A) → List (Reply A)
  unfolding call
  run rb [] = []
  run rb (c ∷ cs) = let (r, rb') = call rb c in r ∷ run rb' cs
