-- ===== src/Program/Families.antt =====
-- Which function of the buffer a thread is in, and that it stays there between call and return.
use telemetrix_db.Base.{
  ℕ, ◌≡◌, refl, sym, ap, ◌∙◌, Bool, true, false, subst, update, ℕ_discrete, ite, arith,
}
use telemetrix_db.Buffer.Threads.{
  Pc, Shared, System, Move, Signal, Step, pick, signal_empty, signal_full, broadcast_empty,
  broadcast_full, wake_empty, wake_full,
}
use telemetrix_db.Program.{is_idle, Within}

abbrev pub family : {A : Type 0} → Pc A → ℕ
family Pc.idle = 0
family (Pc.push_lock x) = 1
family (Pc.push_test x) = 1
family (Pc.push_sleep x) = 1
family (Pc.push_wake x) = 1
family Pc.push_signal = 1
family (Pc.push_unlock b) = 1
family Pc.pop_lock = 2
family Pc.pop_test = 2
family Pc.pop_sleep = 2
family Pc.pop_wake = 2
family (Pc.pop_signal o) = 2
family (Pc.pop_unlock b o) = 2
family Pc.query_lock = 3
family Pc.query_read = 3
family (Pc.query_unlock b) = 3
family p = 4

module _ {A : Type 0} where
  Move-family :
      {m m' : Shared A} {p p' : Pc A}
      → Move m p m' p'
      → is_idle p ≡ false
      → is_idle p' ≡ false
      → family p' ≡ family p
  Move-family Move.query_load out out' = refl
  Move-family mv out out' = ground arith

  update-family :
      (pc : ℕ → Pc A) (i : ℕ) (p : Pc A)
      → family p ≡ family (pc i)
      → (j : ℕ) → family (update pc i p j) ≡ family (pc j)
  update-family pc i p e j =
      elim (ℕ_discrete i j) as (λ d. family (ite d p (pc j)) ≡ family (pc j)) [
        | yes same ↦ subst (λ k. family p ≡ family (pc k)) same e
        | no ne ↦ refl
      ]

  wake_empty-family : (p : Pc A) → family (wake_empty p) ≡ family p
  wake_empty-family p = ground arith

  wake_full-family : (p : Pc A) → family (wake_full p) ≡ family p
  wake_full-family p = ground arith

  Signal-family :
      {n : ℕ} {pc : ℕ → Pc A} {sleeps : Pc A → Bool} {wake : Pc A → Pc A} {pc' : ℕ → Pc A}
      → ((p : Pc A) → family (wake p) ≡ family p)
      → Signal n pc sleeps wake pc'
      → (j : ℕ) → family (pc' j) ≡ family (pc j)
  Signal-family {pc = pc} keeps (Signal.one i below e) j = update-family pc i _ (keeps (pc i)) j
  Signal-family keeps (Signal.nobody h) j = refl

  -- Inside the buffer every thread stays in its function.
  pub Step-family :
      {n : ℕ} {s t : System A} (st : Step n s t)
      → Within st
      → (j : ℕ) → family (t.pc j) ≡ family (s.pc j)
  Step-family {s = s} (pick i {m} {p} below mv) w j =
      update-family s.pc i p (Move-family mv w.0 w.1) j
  Step-family {s = s} (signal_empty i below e sg) w j =
      Signal-family wake_empty-family sg j
      ∙ update-family s.pc i (Pc.push_unlock true) (ap family (sym e)) j
  Step-family {s = s} (signal_full i {o} below e sg) w j =
      Signal-family wake_full-family sg j
      ∙ update-family s.pc i (Pc.pop_unlock true o) (ap family (sym e)) j
  Step-family {s = s} (broadcast_empty i below e) w j =
      wake_empty-family _ ∙ update-family s.pc i Pc.shutdown_wake_full (ap family (sym e)) j
  Step-family {s = s} (broadcast_full i below e) w j =
      wake_full-family _ ∙ update-family s.pc i Pc.shutdown_unlock (ap family (sym e)) j
