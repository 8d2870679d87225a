-- ===== src/Program/Flow.antt =====
-- What one step inside the buffer does to the items on their way through it, when `main` only pops
-- and `ingestion_thread` only pushes.
use telemetrix_db.Base.{
  ℕ, zero, suc, ◌<◌, ◌≡◌, refl, sym, ap, ◌∙◌, true, false, List, ◌++◌, subst, ℕ_discrete, arith,
}
use telemetrix_db.Buffer.Threads.{
  Pc, System, Step, pick, signal_empty, signal_full, broadcast_empty, broadcast_full,
}
use telemetrix_db.Program.{Within}
use telemetrix_db.Program.Roles.{
  pops, feeds, in_hand, waiting, Alike, Alike-trans, Move-Popped, Move-Offered, Signal-Alike,
  update-Alike, wake_empty-Alike, wake_full-Alike, push_signal-Alike, pop_signal-Alike,
}

module _ {A : Type 0} where
  -- Thread 0 pops, thread 1 feeds, and the buffer is open.
  pub record InRoles (s : System A) : Type 0 where
    pub main_pops : pops (s.pc 0) ≡ true
    pub feeder_feeds : feeds (s.pc 1) ≡ true
    pub still_open : s.mem.ring.shutdown ≡ false

  pub record Flows (s t : System A) : Type 0 where
    pub roles : InRoles t
    pub taken :
        (done : List A)
        → s.mem.popped ≡ done ++ in_hand (s.pc 0)
        → t.mem.popped ≡ done ++ in_hand (t.pc 0)
    pub given : t.mem.pushed ++ waiting (t.pc 1) ≡ s.mem.pushed ++ waiting (s.pc 1)

  Alike-Flows :
      (s : System A) (pc : ℕ → Pc A)
      → InRoles s
      → ((j : ℕ) → Alike (s.pc j) (pc j))
      → Flows s (record s { pc = pc })
  Alike-Flows s pc r a = record {
    roles = record {
      main_pops = (a 0).pops_still r.main_pops;
      feeder_feeds = (a 1).feeds_still r.feeder_feeds;
      still_open = r.still_open;
    };
    taken = λ done e. e ∙ ap (λ l. done ++ l) (sym (a 0).same_hand);
    given = ap (λ l. s.mem.pushed ++ l) (a 1).same_wait;
  }

  -- A popping or feeding thread is never inside `buffer_signal_shutdown`.
  not_closing :
      (s : System A) (i : ℕ) {p : Pc A}
      → InRoles s
      → i < 2
      → s.pc i ≡ p
      → pops p ≡ false
      → feeds p ≡ false
      → ⊥
  not_closing s zero r below e f g = cc (r.main_pops)
  not_closing s (suc zero) r below e f g = cc (r.feeder_feeds)
  not_closing s (suc (suc i)) r below e f g = omega arith

  pub Step-Flows : {s t : System A} (st : Step 2 s t) → Within st → InRoles s → Flows s t
  unfolding ℕ_discrete
  Step-Flows {s} (pick zero {m} {p} below mv) w r =
      let h = Move-Popped mv r.main_pops w.0 w.1 in
      record {
        roles = record {
          main_pops = h.still;
          feeder_feeds = r.feeder_feeds;
          still_open = h.open_still ∙ r.still_open;
        };
        taken = h.taken;
        given = ap (λ l. l ++ waiting (s.pc 1)) h.no_push;
      }
  Step-Flows {s} (pick (suc zero) {m} {p} below mv) w r =
      let h = Move-Offered mv r.feeder_feeds w.0 w.1 r.still_open in
      record {
        roles = record {
          main_pops = r.main_pops;
          feeder_feeds = h.still;
          still_open = h.open_still ∙ r.still_open;
        };
        taken = λ done e. h.no_pop ∙ e;
        given = h.given;
      }
  Step-Flows (pick (suc (suc i)) below mv) w r = absurd (omega arith)
  Step-Flows {s} (signal_empty i {pc} below e sg) w r = Alike-Flows s pc r (λ j.
      Alike-trans
        (update-Alike s.pc i (subst (λ p. Alike p (Pc.push_unlock true)) (sym e) push_signal-Alike)
          j)
        (Signal-Alike wake_empty-Alike sg j))
  Step-Flows {s} (signal_full i {o} {pc} below e sg) w r = Alike-Flows s pc r (λ j.
      Alike-trans
        (update-Alike s.pc i
          (subst (λ p. Alike p (Pc.pop_unlock true o)) (sym e) (pop_signal-Alike o)) j)
        (Signal-Alike wake_full-Alike sg j))
  Step-Flows {s} (broadcast_empty i below e) w r = absurd (not_closing s i r below e refl refl)
  Step-Flows {s} (broadcast_full i below e) w r = absurd (not_closing s i r below e refl refl)
