-- ===== src/Buffer/Tests.antt =====
-- The ring buffer on concrete inputs.
use telemetrix_db.Base.{
  ℕ, zero, suc, ◌%◌, ◌+◌, ◌≤◌, ◌<◌, ◌≡◌, ◌++◌, refl, ap, sym, true, false, none, some, List, [],
  ◌∷◌, length, get_elem?, ℕ_discrete, arith,
}
use telemetrix_db.Buffer.{
  RingBuffer, Resources, buffer_init, Call, push, pop, signal_shutdown, is_shutdown, blocked,
  answer, item, done, call, run,
}
use telemetrix_db.Buffer.Valid.{int_max, IsValid, Opened, buffer_init-Opened, call-IsValid}
use telemetrix_db.Buffer.Spec.{Queue, replies}
use telemetrix_db.Buffer.Refine.{Holds, run_refines}
use telemetrix_db.Buffer.Threads.{
  System, Reach, start, later, pick, signal_empty, broadcast_empty, broadcast_full, one, begin_push,
  begin_pop, begin_shutdown, push_acquire, push_store, push_block, push_return, pop_acquire,
  pop_block, pop_take, pop_reacquire, shutdown_acquire, shutdown_store,
}
use telemetrix_db.Buffer.Threads.Safety.{
  mutual_exclusion, first_in_first_out, in_range, consumer_served, producer_served, no_deadlock,
  shutdown_wakes_all,
}
use telemetrix_db.Buffer.Threads.Weights.{
  serves_empty, serves_full, closes_full, asleep_empty, asleep_full,
}

abbrev fresh : RingBuffer ℕ
fresh = record { buf = 0 ∷ 0 ∷ []; capacity = 2; head = 0; tail = 0; count = 0; shutdown = false }

-- One item, 8, round the end of the array comes the next.
abbrev turned : RingBuffer ℕ
turned = record { buf = 7 ∷ 8 ∷ []; capacity = 2; head = 0; tail = 1; count = 1; shutdown = false }

abbrev script : List (Call ℕ)
script = push 1 ∷ push 2 ∷ pop ∷ signal_shutdown ∷ push 3 ∷ pop ∷ pop ∷ is_shutdown ∷ []

run-turned :
    run turned script
    ≡ answer true
      ∷ blocked
      ∷ item true (some 8)
      ∷ done
      ∷ answer false
      ∷ item true (some 1)
      ∷ item false none
      ∷ answer true
      ∷ []
unfolding run
run-turned = refl

turned-IsValid : IsValid turned
turned-IsValid = omega arith

turned-place : (i : ℕ) → i < 1 → get_elem? turned.buf ((1 + i) % 2) ≡ get_elem? (8 ∷ []) i
turned-place zero h = refl
turned-place (suc i) h = absurd (omega arith)

turned-Holds : Holds turned (record { items = 8 ∷ []; closed = false })
turned-Holds = record { size = refl; closed = refl; at_place = turned-place }

call-IsValid_example : IsValid (call turned (push 1)).1 × ((call turned (push 1)).1.capacity ≡ 2)
call-IsValid_example = call-IsValid (push 1) turned-IsValid

run_refines_example :
    run turned script ≡ replies 2 (record { items = 8 ∷ []; closed = false }) script
run_refines_example = run_refines script turned-IsValid turned-Holds

-- Reachable states of two or three threads on one slot, by their steps.
abbrev slot : RingBuffer ℕ
slot = record { buf = 0 ∷ []; capacity = 1; head = 0; tail = 0; count = 0; shutdown = false }

slot-IsValid : IsValid slot
slot-IsValid = omega arith

record Run (n : ℕ) : Type 0 where
  last : System ℕ
  reach : Reach n slot last

-- Thread 1 is a consumer that goes to sleep.
abbrev sleeping : Run 3
unfolding ℕ_discrete
sleeping = record {
  last = _;
  reach =
      later
        (later (later start (pick 1 (omega arith) begin_pop))
          (pick 1 (omega arith) (pop_acquire refl)))
        (pick 1 (omega arith) (pop_block refl));
}

-- Then thread 0 stores 5, and has yet to signal.
abbrev stored : Run 3
unfolding ℕ_discrete
stored = record {
  last = _;
  reach =
      later
        (later (later sleeping.reach (pick 0 (omega arith) (begin_push {x = 5})))
          (pick 0 (omega arith) (push_acquire refl)))
        (pick 0 (omega arith) (push_store refl refl));
}

-- The signal wakes thread 1 and thread 0 returns; it comes back, finds the slot full and sleeps,
-- while thread 2, which slept before all this, was not woken.
abbrev two_asleep : Run 3
unfolding ℕ_discrete
two_asleep = record {
  last = _;
  reach =
      later
        (later (later sleeping.reach (pick 2 (omega arith) begin_pop))
          (pick 2 (omega arith) (pop_acquire refl)))
        (pick 2 (omega arith) (pop_block refl));
}

abbrev resold : Run 3
unfolding ℕ_discrete
resold = record {
  last = _;
  reach =
      later
        (later
          (later
            (later (later two_asleep.reach (pick 0 (omega arith) (begin_push {x = 5})))
              (pick 0 (omega arith) (push_acquire refl)))
            (pick 0 (omega arith) (push_store refl refl)))
          (signal_empty 0 (omega arith) refl (one 1 (omega arith) refl)))
        (pick 0 (omega arith) push_return);
}

abbrev jammed : Run 3
unfolding ℕ_discrete
jammed = record {
  last = _;
  reach =
      later
        (later (later resold.reach (pick 0 (omega arith) (begin_push {x = 6})))
          (pick 0 (omega arith) (push_acquire refl)))
        (pick 0 (omega arith) (push_block refl));
}

-- Thread 1 takes the item, and has yet to signal `not_full`.
abbrev drained : Run 3
unfolding ℕ_discrete
drained = record {
  last = _;
  reach =
      later (later jammed.reach (pick 1 (omega arith) (pop_reacquire refl)))
        (pick 1 (omega arith) (pop_take refl refl));
}

-- Thread 0 shuts the buffer down under the sleeping thread 1.
abbrev shut_down : Run 3
unfolding ℕ_discrete
shut_down = record {
  last = _;
  reach =
      later
        (later
          (later
            (later (later sleeping.reach (pick 0 (omega arith) begin_shutdown))
              (pick 0 (omega arith) (shutdown_acquire refl)))
            (pick 0 (omega arith) shutdown_store))
          (broadcast_empty 0 (omega arith) refl))
        (broadcast_full 0 (omega arith) refl);
}

mutual_exclusion_example : ◌≡◌ {A = ℕ} 0 0
unfolding ℕ_discrete
mutual_exclusion_example =
    mutual_exclusion slot-IsValid refl stored.reach 0 0 (omega arith) (omega arith) refl refl

first_in_first_out_example :
    (q : Queue ℕ) × Holds drained.last.mem.ring q
    × (5 ∷ [] ≡ 5 ∷ [] ++ q.items)
    × (length q.items ≤ 1)
unfolding ℕ_discrete
first_in_first_out_example = first_in_first_out slot-IsValid refl drained.reach

in_range_example :
    (drained.last.mem.ring.head < length drained.last.mem.ring.buf)
    × (drained.last.mem.ring.tail < length drained.last.mem.ring.buf)
    × (drained.last.mem.ring.head + 1 ≤ int_max)
    × (drained.last.mem.ring.tail + 1 ≤ int_max)
    × (drained.last.mem.ring.count ≤ drained.last.mem.ring.capacity)
    × (drained.last.mem.ring.capacity ≡ 1)
    × (1 ≤ int_max)
in_range_example = in_range slot-IsValid refl drained.reach

consumer_served_example : (j : ℕ) × (j < 3) × (0 < serves_empty (resold.last.pc j))
unfolding ℕ_discrete
consumer_served_example =
    consumer_served slot-IsValid refl resold.reach 2 (omega arith) refl (omega arith)

producer_served_example : (j : ℕ) × (j < 3) × (0 < serves_full (drained.last.pc j))
unfolding ℕ_discrete
producer_served_example =
    producer_served slot-IsValid refl drained.reach 0 (omega arith) refl refl (omega arith)

no_deadlock_example :
    (k : ℕ) × (k < 3) × (0 < serves_empty (jammed.last.pc k) + serves_full (jammed.last.pc k))
unfolding ℕ_discrete
no_deadlock_example =
    no_deadlock slot-IsValid refl jammed.reach 2 0 (omega arith) (omega arith) refl refl refl

shut_down-quiet : (j : ℕ) → j < 3 → closes_full (shut_down.last.pc j) ≡ 0
unfolding ℕ_discrete
shut_down-quiet zero h = refl
shut_down-quiet (suc zero) h = refl
shut_down-quiet (suc (suc zero)) h = refl
shut_down-quiet (suc (suc (suc j))) h = absurd (omega arith)

shutdown_wakes_all_example :
    (asleep_empty (shut_down.last.pc 1) ≡ 0) × (asleep_full (shut_down.last.pc 1) ≡ 0)
unfolding ℕ_discrete
shutdown_wakes_all_example =
    shutdown_wakes_all slot-IsValid refl shut_down.reach refl shut_down-quiet 1 (omega arith)

-- A capacity of two, the second allocation gives two elements.
two_elements : (b : List ℕ) → some (0 ∷ 0 ∷ []) ≡ some b → length b ≡ 2
two_elements b e = let same : 0 ∷ 0 ∷ [] ≡ b = cc in ap length (sym same)

abbrev none_live : Resources
none_live = record { blocks = 0; mutexes = 0; conditions = 0 }

buffer_init-Opened_example :
    Opened {A = ℕ} 2 true
      (some (0 ∷ 0 ∷ []))
      none_live
      (buffer_init true (some (0 ∷ 0 ∷ [])) 2 none_live)
buffer_init-Opened_example =
    buffer_init-Opened true (some (0 ∷ 0 ∷ [])) 2 none_live two_elements (omega arith) (omega arith)
