-- ===== src/Buffer/Threads/Invariant.antt =====
-- What holds between any two steps of the threads of buffer.c.
mod Defs
mod Moves
mod Signals
pub use Defs.*
pub use Signals.{Step-Inv}
use telemetrix_db.Base.{ℕ, ◌≡◌, refl, [], total, total-eq-zero, arith}
use telemetrix_db.Buffer.{RingBuffer}
use telemetrix_db.Buffer.Valid.{IsValid}
use telemetrix_db.Buffer.Threads.{Pc, idle, System, init, Reach, start, later}
use telemetrix_db.Buffer.Threads.Weights.{holds, asleep_empty, asleep_full}

module _ {A : Type 0} {rb : RingBuffer A} where
  init-Inv : (n : ℕ) → IsValid rb → rb.count ≡ 0 → Inv n (init rb).mem (init rb).pc
  init-Inv n v empty = record {
    exclusive = total-eq-zero holds n _ (λ i _. refl);
    valid = v;
    kept = record {
      queue = record { items = []; closed = rb.shutdown };
      held_by_ring = record {
        size = omega arith;
        closed = refl;
        at_place = λ i h. absurd (omega arith);
      };
      in_order = refl;
    };
    awake = ground (
      arith,
      total-eq-zero asleep_empty n (init rb).pc (λ i _. refl),
      total-eq-zero asleep_full n (init rb).pc (λ i _. refl),
    );
  }

  pub Reach-Inv :
      {n : ℕ} {s : System A} → IsValid rb → rb.count ≡ 0 → Reach n rb s → Inv n s.mem s.pc
  Reach-Inv {n} v empty start = init-Inv n v empty
  Reach-Inv v empty (later r st) = Step-Inv st (Reach-Inv v empty r)
