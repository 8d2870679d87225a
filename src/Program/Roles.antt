-- ===== src/Program/Roles.antt =====
-- What the two threads do inside the buffer: `main` only pops, `ingestion_thread` only pushes and
-- asks, and between the calls no item is lost.
use telemetrix_db.Base.{
  ℕ, ◌≡◌, refl, ap, ◌∙◌, Bool, true, false, Option, List, [], ◌∷◌, not, ◌++◌, append-nil, subst,
  update, ite, ℕ_discrete, arith,
}
use telemetrix_db.Buffer.{pop_read}
use telemetrix_db.Buffer.Threads.{Pc, Shared, Move, Signal, to_list, wake_empty, wake_full}
use telemetrix_db.Program.{is_idle}

abbrev pub pops : {A : Type 0} → Pc A → Bool
pops Pc.idle = true
pops Pc.pop_lock = true
pops Pc.pop_test = true
pops Pc.pop_sleep = true
pops Pc.pop_wake = true
pops (Pc.pop_signal o) = true
pops (Pc.pop_unlock b o) = true
pops p = false

-- While the buffer is open no push is refused, and the answer to the question is no.
abbrev pub feeds : {A : Type 0} → Pc A → Bool
feeds Pc.idle = true
feeds (Pc.push_lock x) = true
feeds (Pc.push_test x) = true
feeds (Pc.push_sleep x) = true
feeds (Pc.push_wake x) = true
feeds Pc.push_signal = true
feeds (Pc.push_unlock b) = b
feeds Pc.query_lock = true
feeds Pc.query_read = true
feeds (Pc.query_unlock b) = not b
feeds p = false

-- The item that a thread has taken out of the buffer, or has yet to put in.
abbrev pub in_hand : {A : Type 0} → Pc A → List A
in_hand (Pc.pop_signal o) = to_list o
in_hand (Pc.pop_unlock b o) = to_list o
in_hand p = []

abbrev pub waiting : {A : Type 0} → Pc A → List A
waiting (Pc.push_lock x) = x ∷ []
waiting (Pc.push_test x) = x ∷ []
waiting (Pc.push_sleep x) = x ∷ []
waiting (Pc.push_wake x) = x ∷ []
waiting p = []

module _ {A : Type 0} where
  -- What a step of a popping thread, inside `buffer_pop`, does to the memory.
  pub record Popped (m m' : Shared A) (p p' : Pc A) : Type 0 where
    pub still : pops p' ≡ true
    pub no_push : m'.pushed ≡ m.pushed
    pub taken : (done : List A) → m.popped ≡ done ++ in_hand p → m'.popped ≡ done ++ in_hand p'
    pub open_still : m'.ring.shutdown ≡ m.ring.shutdown

  pub Move-Popped :
      {m m' : Shared A} {p p' : Pc A}
      → Move m p m' p'
      → pops p ≡ true
      → is_idle p ≡ false
      → is_idle p' ≡ false
      → Popped m m' p p'
  Move-Popped {m} (Move.pop_take w r) pop out out' = record {
    still = refl;
    no_push = refl;
    taken = λ done e. ap (λ l. l ++ to_list (pop_read m.ring)) (e ∙ append-nil done);
    open_still = refl;
  }
  Move-Popped mv pop out out' = record {
    still = ground arith;
    no_push = ground arith;
    taken = λ done e. ground arith;
    open_still = ground arith;
  }

  -- What a step of the feeding thread, inside `buffer_push` or `buffer_is_shutdown`, does to it while
  -- the buffer is open.
  pub record Offered (m m' : Shared A) (p p' : Pc A) : Type 0 where
    pub still : feeds p' ≡ true
    pub no_pop : m'.popped ≡ m.popped
    pub given : m'.pushed ++ waiting p' ≡ m.pushed ++ waiting p
    pub open_still : m'.ring.shutdown ≡ m.ring.shutdown

  pub Move-Offered :
      {m m' : Shared A} {p p' : Pc A}
      → Move m p m' p'
      → feeds p ≡ true
      → is_idle p ≡ false
      → is_idle p' ≡ false
      → m.ring.shutdown ≡ false
      → Offered m m' p p'
  Move-Offered {m} (Move.push_store {x} w r) feed out out' live = record {
    still = refl;
    no_pop = refl;
    given = append-nil (m.pushed ++ (x ∷ []));
    open_still = refl;
  }
  Move-Offered (Move.push_refuse w r) feed out out' live = absurd (ground arith)
  Move-Offered mv feed out out' live = record {
    still = ground arith;
    no_pop = ground arith;
    given = ground arith;
    open_still = ground arith;
  }

  -- A step of a thread that changes no item in its hands and no role.
  pub record Alike (p p' : Pc A) : Type 0 where
    pub pops_still : pops p ≡ true → pops p' ≡ true
    pub feeds_still : feeds p ≡ true → feeds p' ≡ true
    pub same_hand : in_hand p' ≡ in_hand p
    pub same_wait : waiting p' ≡ waiting p

  pub Alike-refl : (p : Pc A) → Alike p p
  Alike-refl p = record {
    pops_still = λ e. e;
    feeds_still = λ e. e;
    same_hand = refl;
    same_wait = refl;
  }

  pub Alike-trans : {p q r : Pc A} → Alike p q → Alike q r → Alike p r
  Alike-trans a b = record {
    pops_still = λ e. b.pops_still (a.pops_still e);
    feeds_still = λ e. b.feeds_still (a.feeds_still e);
    same_hand = b.same_hand ∙ a.same_hand;
    same_wait = b.same_wait ∙ a.same_wait;
  }

  pub wake_empty-Alike : (p : Pc A) → Alike p (wake_empty p)
  wake_empty-Alike Pc.pop_sleep = record {
    pops_still = λ e. e;
    feeds_still = λ e. e;
    same_hand = refl;
    same_wait = refl;
  }
  wake_empty-Alike p = Alike-refl p

  pub wake_full-Alike : (p : Pc A) → Alike p (wake_full p)
  wake_full-Alike (Pc.push_sleep x) = record {
    pops_still = λ e. e;
    feeds_still = λ e. e;
    same_hand = refl;
    same_wait = refl;
  }
  wake_full-Alike p = Alike-refl p

  pub update-Alike :
      (pc : ℕ → Pc A) (i : ℕ) {p : Pc A} → Alike (pc i) p → (j : ℕ) → Alike (pc j) (update pc i p j)
  update-Alike pc i {p} a j = elim (ℕ_discrete i j) as (λ d. Alike (pc j) (ite d p (pc j))) [
    | yes e ↦ subst (λ k. Alike (pc k) p) e a
    | no ne ↦ Alike-refl (pc j)
  ]

  pub Signal-Alike :
      {n : ℕ} {pc : ℕ → Pc A} {sleeps : Pc A → Bool} {wake : Pc A → Pc A} {pc' : ℕ → Pc A}
      → ((p : Pc A) → Alike p (wake p))
      → Signal n pc sleeps wake pc'
      → (j : ℕ) → Alike (pc j) (pc' j)
  Signal-Alike {pc = pc} keeps (Signal.one i below e) j = update-Alike pc i (keeps (pc i)) j
  Signal-Alike {pc = pc} keeps (Signal.nobody h) j = Alike-refl (pc j)

  pub push_signal-Alike : Alike Pc.push_signal (Pc.push_unlock true)
  push_signal-Alike = record {
    pops_still = λ e. e;
    feeds_still = λ e. refl;
    same_hand = refl;
    same_wait = refl;
  }

  pub pop_signal-Alike : (o : Option A) → Alike (Pc.pop_signal o) (Pc.pop_unlock true o)
  pop_signal-Alike o = record {
    pops_still = λ e. refl;
    feeds_still = λ e. e;
    same_hand = refl;
    same_wait = refl;
  }
