-- ===== src/Buffer/Threads/Weights.antt =====
-- What each place in buffer.c counts for: holding the lock, sleeping, or about to look at the
-- buffer on behalf of a sleeper.
use telemetrix_db.Base.{ℕ}
use telemetrix_db.Buffer.Threads.{
  Pc, idle, push_lock, push_test, push_sleep, push_wake, push_signal, pop_lock, pop_test, pop_sleep,
  pop_wake, pop_signal, shutdown_lock, shutdown_wake_empty, shutdown_wake_full, query_lock,
}

module _ {A : Type 0} where
  -- Between an acquisition of `rb->lock` and its release.
  abbrev pub holds : Pc A → ℕ
  holds idle = 0
  holds (push_lock x) = 0
  holds (push_sleep x) = 0
  holds (push_wake x) = 0
  holds pop_lock = 0
  holds pop_sleep = 0
  holds pop_wake = 0
  holds shutdown_lock = 0
  holds query_lock = 0
  holds p = 1

  abbrev pub asleep_empty : Pc A → ℕ
  asleep_empty pop_sleep = 1
  asleep_empty p = 0

  abbrev pub asleep_full : Pc A → ℕ
  asleep_full (push_sleep x) = 1
  asleep_full p = 0

  -- A consumer that will test the buffer, or a producer that will wake one.
  abbrev pub serves_empty : Pc A → ℕ
  serves_empty pop_test = 1
  serves_empty pop_wake = 1
  serves_empty push_signal = 1
  serves_empty p = 0

  -- A producer that will test the buffer, or a consumer that will wake one.
  abbrev pub serves_full : Pc A → ℕ
  serves_full (push_test x) = 1
  serves_full (push_wake x) = 1
  serves_full (pop_signal o) = 1
  serves_full p = 0

  -- The shutdown call before its broadcast on `not_empty`, on `not_full`.
  abbrev pub closes_empty : Pc A → ℕ
  closes_empty shutdown_wake_empty = 1
  closes_empty p = 0

  abbrev pub closes_full : Pc A → ℕ
  closes_full shutdown_wake_empty = 1
  closes_full shutdown_wake_full = 1
  closes_full p = 0
