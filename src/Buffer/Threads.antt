-- ===== src/Buffer/Threads.antt =====
-- buffer.c as its threads run it: each function split at its calls of pthreads, `n` threads
-- interleaved in any order. A mutex admits one thread at a time; `pthread_cond_wait` gives the
-- mutex up and sleeps in one step, and a sleeper may also wake for no reason, as POSIX allows.
-- `pthread_cond_signal` wakes one sleeper of its condition, if there is one; a broadcast wakes
-- all.
pub mod Weights
pub mod Invariant
pub mod Safety
use telemetrix_db.Base.{
  ℕ, ◌<◌, ◌≡◌, ◌≢◌, Bool, true, false, Option, none, some, List, [], ◌∷◌, ◌++◌, update,
}
use telemetrix_db.Buffer.{
  RingBuffer, push_waits, push_write, pop_waits, pop_refuses, pop_read, pop_advance, set_shutdown,
}

-- Where a thread stands in the functions of buffer.c, with its live locals.
pub data Pc (A : Type 0) : Type 0 where
  idle : Pc A  -- in no function of buffer.c
  push_lock : A → Pc A  -- before `pthread_mutex_lock` of `buffer_push`
  push_test : A → Pc A  -- at its `while`, with the lock
  push_sleep : A → Pc A  -- asleep on `not_full`
  push_wake : A → Pc A  -- woken, wants the lock back
  push_signal : Pc A  -- item written, before the signal on `not_empty`
  push_unlock : Bool → Pc A  -- before the unlock and the return of this value
  pop_lock : Pc A
  pop_test : Pc A
  pop_sleep : Pc A  -- asleep on `not_empty`
  pop_wake : Pc A
  pop_signal : Option A → Pc A  -- item read, before the signal on `not_full`
  pop_unlock : Bool → Option A → Pc A
  shutdown_lock : Pc A
  shutdown_set : Pc A  -- before `rb->shutdown = true`, with the lock
  shutdown_wake_empty : Pc A  -- before the broadcast on `not_empty`
  shutdown_wake_full : Pc A  -- before the broadcast on `not_full`
  shutdown_unlock : Pc A
  query_lock : Pc A
  query_read : Pc A
  query_unlock : Bool → Pc A

-- The shared memory. `pushed` and `popped` are the history: every item that was stored and every
-- one that was taken out, in the order of the events.
pub record Shared (A : Type 0) : Type 0 where
  pub held : Bool
  pub ring : RingBuffer A
  pub pushed : List A
  pub popped : List A

pub record System (A : Type 0) : Type 0 where
  pub mem : Shared A
  pub pc : ℕ → Pc A

abbrev pub to_list : {A : Type 0} → Option A → List A
to_list none = []
to_list (some x) = x ∷ []

-- A step of one thread that touches no other thread.
pub data Move {A : Type 0} (m : Shared A) : Pc A → Shared A → Pc A → Type 0 where
  begin_push : {x : A} → Move m idle m (push_lock x)
  begin_pop : Move m idle m pop_lock
  begin_shutdown : Move m idle m shutdown_lock
  begin_query : Move m idle m query_lock
  push_acquire :
      {x : A} → m.held ≡ false → Move m (push_lock x) (record m { held = true }) (push_test x)
  push_block :
      {x : A}
      → push_waits m.ring ≡ true
      → Move m (push_test x) (record m { held = false }) (push_sleep x)
  push_refuse :
      {x : A}
      → push_waits m.ring ≡ false
      → m.ring.shutdown ≡ true
      → Move m (push_test x) m (push_unlock false)
  push_store :
      {x : A}
      → push_waits m.ring ≡ false
      → m.ring.shutdown ≡ false
      → Move m
          (push_test x)
          (record m { ring = push_write x m.ring; pushed = m.pushed ++ (x ∷ []) })
          push_signal
  push_spurious : {x : A} → Move m (push_sleep x) m (push_wake x)
  push_reacquire :
      {x : A} → m.held ≡ false → Move m (push_wake x) (record m { held = true }) (push_test x)
  push_return : {b : Bool} → Move m (push_unlock b) (record m { held = false }) idle
  pop_acquire : m.held ≡ false → Move m pop_lock (record m { held = true }) pop_test
  pop_block : pop_waits m.ring ≡ true → Move m pop_test (record m { held = false }) pop_sleep
  pop_refuse :
      pop_waits m.ring ≡ false
      → pop_refuses m.ring ≡ true
      → Move m pop_test m (pop_unlock false none)
  pop_take :
      pop_waits m.ring ≡ false
      → pop_refuses m.ring ≡ false
      → Move m pop_test
          (record m { ring = pop_advance m.ring; popped = m.popped ++ to_list (pop_read m.ring) })
          (pop_signal (pop_read m.ring))
  pop_spurious : Move m pop_sleep m pop_wake
  pop_reacquire : m.held ≡ false → Move m pop_wake (record m { held = true }) pop_test
  pop_return : {b : Bool} {o : Option A} → Move m (pop_unlock b o) (record m { held = false }) idle
  shutdown_acquire : m.held ≡ false → Move m shutdown_lock (record m { held = true }) shutdown_set
  shutdown_store : Move m shutdown_set (record m { ring = set_shutdown m.ring }) shutdown_wake_empty
  shutdown_return : Move m shutdown_unlock (record m { held = false }) idle
  query_acquire : m.held ≡ false → Move m query_lock (record m { held = true }) query_read
  query_load : Move m query_read m (query_unlock m.ring.shutdown)
  query_return : {b : Bool} → Move m (query_unlock b) (record m { held = false }) idle

-- What a broadcast does to a thread: on `not_empty` and on `not_full`.
abbrev pub wake_empty : {A : Type 0} → Pc A → Pc A
wake_empty pop_sleep = pop_wake
wake_empty p = p

abbrev pub wake_full : {A : Type 0} → Pc A → Pc A
wake_full (push_sleep x) = push_wake x
wake_full p = p

-- A signal: the sender goes from its place to another, and wakes a sleeper or finds none.
pub data Signal {A : Type 0} (n : ℕ) (pc : ℕ → Pc A) (sleeps : Pc A → Bool) (wake : Pc A → Pc A)
    : (ℕ → Pc A) → Type 0 where
  one : (j : ℕ) → j < n → sleeps (pc j) ≡ true → Signal n pc sleeps wake (update pc j (wake (pc j)))
  nobody : ((j : ℕ) → j < n → sleeps (pc j) ≡ false) → Signal n pc sleeps wake pc

abbrev pub sleeps_empty : {A : Type 0} → Pc A → Bool
sleeps_empty pop_sleep = true
sleeps_empty p = false

abbrev pub sleeps_full : {A : Type 0} → Pc A → Bool
sleeps_full (push_sleep x) = true
sleeps_full p = false

-- One step of the system. An index from `n` on names no thread, and stays idle.
pub data Step {A : Type 0} (n : ℕ) (s : System A) : System A → Type 0 where
  pick :
      (i : ℕ) {m : Shared A} {p : Pc A}
      → i < n
      → Move s.mem (s.pc i) m p
      → Step n s (record { mem = m; pc = update s.pc i p })
  signal_empty :
      (i : ℕ) {pc : ℕ → Pc A}
      → i < n
      → s.pc i ≡ push_signal
      → Signal n (update s.pc i (push_unlock true)) sleeps_empty wake_empty pc
      → Step n s (record s { pc = pc })
  signal_full :
      (i : ℕ) {o : Option A} {pc : ℕ → Pc A}
      → i < n
      → s.pc i ≡ pop_signal o
      → Signal n (update s.pc i (pop_unlock true o)) sleeps_full wake_full pc
      → Step n s (record s { pc = pc })
  broadcast_empty :
      (i : ℕ)
      → i < n
      → s.pc i ≡ shutdown_wake_empty
      → Step n s (record s { pc = λ j. wake_empty (update s.pc i shutdown_wake_full j) })
  broadcast_full :
      (i : ℕ)
      → i < n
      → s.pc i ≡ shutdown_wake_full
      → Step n s (record s { pc = λ j. wake_full (update s.pc i shutdown_unlock j) })

-- `buffer_init` gave `rb`, no thread is inside a function of buffer.c.
abbrev pub init : {A : Type 0} → RingBuffer A → System A
init rb = record {
  mem = record { held = false; ring = rb; pushed = []; popped = [] };
  pc = λ _. idle;
}

pub data Reach {A : Type 0} (n : ℕ) (rb : RingBuffer A) : System A → Type 0 where
  start : Reach n rb (init rb)
  later : {s t : System A} → Reach n rb s → Step n s t → Reach n rb t
