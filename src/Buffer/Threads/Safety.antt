-- ===== src/Buffer/Threads/Safety.antt =====
-- What the ring buffer guarantees to any number of threads, in every interleaving.
use telemetrix_db.Base.{
  ℕ, ◌+◌, ◌≤◌, ◌<◌, ◌≡◌, ◌∙◌, refl, true, false, ◌++◌, total-pos, total-eq-zero, le-total,
  add-le-total, length, ℕ_discrete, dec_lt, arith,
}
use telemetrix_db.Buffer.{RingBuffer}
use telemetrix_db.Buffer.Valid.{IsValid, int_max}
use telemetrix_db.Buffer.Spec.{Queue}
use telemetrix_db.Buffer.Refine.{Holds}
use telemetrix_db.Buffer.Threads.{
  idle, Shared, Pc, System, Move, Step, pick, signal_empty, signal_full, broadcast_empty,
  broadcast_full, begin_push, Reach, start, later,
}
use telemetrix_db.Buffer.Threads.Weights.{
  holds, asleep_empty, asleep_full, serves_empty, serves_full, closes_empty, closes_full,
}
use telemetrix_db.Buffer.Threads.Invariant.{Inv, Reach-Inv}

module _ {A : Type 0} where
  closes_empty-le : (p : Pc A) → closes_full p ≡ 0 → closes_empty p ≡ 0
  closes_empty-le p h = ground arith

  Move-capacity :
      {p p' : Pc A} {m m' : Shared A} → Move m p m' p' → m'.ring.capacity ≡ m.ring.capacity
  Move-capacity begin_push = refl
  Move-capacity mv = refl

  Step-capacity : {n : ℕ} {s t : System A} → Step n s t → t.mem.ring.capacity ≡ s.mem.ring.capacity
  Step-capacity (pick i below mv) = Move-capacity mv
  Step-capacity (signal_empty i below e sg) = refl
  Step-capacity (signal_full i below e sg) = refl
  Step-capacity (broadcast_empty i below e) = refl
  Step-capacity (broadcast_full i below e) = refl

  Reach-capacity :
      {n : ℕ} {rb : RingBuffer A} {s : System A} → Reach n rb s → s.mem.ring.capacity ≡ rb.capacity
  Reach-capacity start = refl
  Reach-capacity (later r st) = Step-capacity st ∙ Reach-capacity r

module _ {A : Type 0} {n : ℕ} {rb : RingBuffer A} {s : System A} (v : IsValid rb)
    (empty : rb.count ≡ 0) (r : Reach n rb s) where
  abbrev inv : Inv n s.mem s.pc
  inv = Reach-Inv v empty r

  -- In every state that the threads reach from a valid, empty buffer: two threads are never in
  -- critical sections of the same buffer together: of the threads below `n`, those that hold the
  -- lock are one and the same.
  pub mutual_exclusion : (i j : ℕ) → i < n → j < n → holds (s.pc i) ≡ 1 → holds (s.pc j) ≡ 1 → i ≡ j
  mutual_exclusion i j hi hj in_i in_j = elim (ℕ_discrete i j) [
    | yes e ↦ e
    | no ne ↦
        absurd (ground (arith, inv.exclusive, add-le-total holds n s.pc idle refl i j hi hj ne))
  ]

  -- In every state that the threads reach from a valid, empty buffer: no interleaving loses,
  -- repeats or reorders an item: what was stored so far is what was taken out, in the same order,
  -- followed by what the ring holds, which is at most its capacity.
  pub first_in_first_out :
      (q : Queue A) × Holds s.mem.ring q
      × (s.mem.pushed ≡ s.mem.popped ++ q.items)
      × (length q.items ≤ rb.capacity)
  first_in_first_out = (
    inv.kept.queue,
    inv.kept.held_by_ring,
    inv.kept.in_order,
    omega (arith, inv.kept.held_by_ring.size, inv.valid.count_in, Reach-capacity r),
  )

  -- In every state that the threads reach from a valid, empty buffer, the places that the next store
  -- and the next take touch are inside the array, their successors do not overflow an `int` before
  -- the remainder is taken, and the count is at most the capacity, which is an `int` and never changes.
  pub in_range :
      (s.mem.ring.head < length s.mem.ring.buf)
      × (s.mem.ring.tail < length s.mem.ring.buf)
      × (s.mem.ring.head + 1 ≤ int_max)
      × (s.mem.ring.tail + 1 ≤ int_max)
      × (s.mem.ring.count ≤ s.mem.ring.capacity)
      × (s.mem.ring.capacity ≡ rb.capacity)
      × (rb.capacity ≤ int_max)
  in_range = omega (arith, inv.valid, v.small, Reach-capacity r)

  -- In every state reached from a valid, empty buffer no wakeup of a consumer is lost: if one
  -- sleeps and there are items, some thread is about to test the buffer as a consumer, or about to
  -- signal `not_empty`.
  pub consumer_served :
      (i : ℕ)
      → i < n
      → asleep_empty (s.pc i) ≡ 1
      → 0 < s.mem.ring.count
      → (j : ℕ) × (j < n) × (0 < serves_empty (s.pc j))
  consumer_served i hi sleeps items =
      total-pos serves_empty n s.pc (ground (arith, inv.awake, le-total asleep_empty n s.pc i hi))

  -- In every state reached from a valid, empty buffer no wakeup of a producer is lost: if one
  -- sleeps, the buffer is open and has room, some thread is about to test the buffer as a
  -- producer, or about to signal `not_full`.
  pub producer_served :
      (i : ℕ)
      → i < n
      → asleep_full (s.pc i) ≡ 1
      → s.mem.ring.shutdown ≡ false
      → s.mem.ring.count < rb.capacity
      → (j : ℕ) × (j < n) × (0 < serves_full (s.pc j))
  producer_served i hi sleeps live room =
      total-pos serves_full n s.pc
        (ground (arith, inv.awake, Reach-capacity r, le-total asleep_full n s.pc i hi))

  -- No deadlock in a state reached from a valid, empty buffer: if a producer and a consumer both
  -- sleep and the buffer is open, some thread is about to test the buffer for one of them or to
  -- signal.
  pub no_deadlock :
      (i j : ℕ)
      → i < n
      → j < n
      → asleep_empty (s.pc i) ≡ 1
      → asleep_full (s.pc j) ≡ 1
      → s.mem.ring.shutdown ≡ false
      → (k : ℕ) × (k < n) × (0 < serves_empty (s.pc k) + serves_full (s.pc k))
  no_deadlock i j hi hj si sj live = elim (dec_lt 0 s.mem.ring.count) [
    | yes items ↦ let (k, hk, p) = consumer_served i hi si items in (k, hk, omega arith)
    | no none_left ↦
        let (k, hk, p) = producer_served j hj sj live (omega (arith, v.nonempty)) in
        (k, hk, omega arith)
  ]

  -- In every state reached from a valid, empty buffer, after a shutdown: when no shutdown call
  -- stands before one of its broadcasts, no thread sleeps.
  pub shutdown_wakes_all :
      s.mem.ring.shutdown ≡ true
      → ((j : ℕ) → j < n → closes_full (s.pc j) ≡ 0)
      → (i : ℕ) → i < n
      → (asleep_empty (s.pc i) ≡ 0) × (asleep_full (s.pc i) ≡ 0)
  shutdown_wakes_all shut quiet i hi = ground (
    arith,
    inv.awake,
    total-eq-zero closes_full n s.pc quiet,
    total-eq-zero closes_empty n s.pc (λ j hj. closes_empty-le _ (quiet j hj)),
    le-total asleep_empty n s.pc i hi,
    le-total asleep_full n s.pc i hi,
  )
