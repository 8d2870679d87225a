-- ===== src/Buffer/Threads/Invariant/Defs.antt =====
-- The invariant of the interleaved system: who has the lock, what the buffer holds, and why no
-- sleeper is forgotten.
use telemetrix_db.Base.{ℕ, ◌+◌, ◌≤◌, ◌<◌, ◌≡◌, true, false, ◌++◌, total, if◌then◌else◌}
use telemetrix_db.Buffer.Valid.{IsValid}
use telemetrix_db.Buffer.Spec.{Queue}
use telemetrix_db.Buffer.Refine.{Holds}
use telemetrix_db.Buffer.Threads.{Pc, Shared}
use telemetrix_db.Buffer.Threads.Weights.{
  holds, asleep_empty, asleep_full, serves_empty, serves_full, closes_empty, closes_full,
}

-- The items stored so far are those taken out, in that order, and then those in the buffer.
pub record Kept {A : Type 0} (m : Shared A) : Type 0 where
  pub queue : Queue A
  pub held_by_ring : Holds m.ring queue
  pub in_order : m.pushed ≡ m.popped ++ queue.items

-- The mutex is taken exactly if one thread is in a critical section; then no other is.
abbrev pub Exclusive : {A : Type 0} → ℕ → Shared A → (ℕ → Pc A) → Type 0
Exclusive n m pc = total holds n pc ≡ (if m.held then 1 else 0)

-- While a consumer sleeps, each item in the buffer is matched by a thread that will see to it;
-- while a producer sleeps before a shutdown, so is each free place. After a shutdown, a sleeper
-- waits for its broadcast.
pub record Awake {A : Type 0} (n : ℕ) (m : Shared A) (pc : ℕ → Pc A) : Type 0 where
  pub items_served : 0 < total asleep_empty n pc → m.ring.count ≤ total serves_empty n pc
  pub places_served :
      m.ring.shutdown ≡ false
      → 0 < total asleep_full n pc
      → m.ring.capacity ≤ m.ring.count + total serves_full n pc
  pub closing_empty :
      m.ring.shutdown ≡ true → 0 < total asleep_empty n pc → 0 < total closes_empty n pc
  pub closing_full :
      m.ring.shutdown ≡ true → 0 < total asleep_full n pc → 0 < total closes_full n pc

pub record Inv {A : Type 0} (n : ℕ) (m : Shared A) (pc : ℕ → Pc A) : Type 0 where
  pub exclusive : Exclusive n m pc
  pub valid : IsValid m.ring
  pub kept : Kept m
  pub awake : Awake n m pc
