-- ===== src/Program/Calls.antt =====
-- Calls and returns of the program are steps of the buffer's threads.
use telemetrix_db.Base.{ℕ, ◌<◌, ◌≡◌, sym, false, subst}
use telemetrix_db.Buffer.{RingBuffer}
use telemetrix_db.Buffer.Threads.{Pc, Shared, System, Move, pick, Reach, later}
use telemetrix_db.Program.{enter, leave}

module _ {A : Type 0} {rb : RingBuffer A} where
  -- A thread enters or leaves a function of the buffer.
  pub entered :
      {sys : System A} (i : ℕ) {p : Pc A}
      → Reach 2 rb sys
      → i < 2
      → sys.pc i ≡ Pc.idle
      → ((m : Shared A) → Move m Pc.idle m p)
      → Reach 2 rb (enter i p sys)
  entered {sys} i {p} r below e mv =
      later r (pick i below (subst (λ q. Move sys.mem q sys.mem p) (sym e) (mv sys.mem)))

  pub left :
      {sys : System A} (i : ℕ) {p : Pc A}
      → Reach 2 rb sys
      → i < 2
      → sys.pc i ≡ p
      → Move sys.mem p (record sys.mem { held = false }) Pc.idle
      → Reach 2 rb (leave i sys)
  left {sys} i {p} r below e mv = later r (
      pick i below
        (subst (λ q. Move sys.mem q (record sys.mem { held = false }) Pc.idle) (sym e) mv))
