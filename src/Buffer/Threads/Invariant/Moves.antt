-- ===== src/Buffer/Threads/Invariant/Moves.antt =====
-- A step of one thread keeps each part of the invariant.
use telemetrix_db.Base.{
  ℕ, ◌+◌, ◌≤◌, ◌<◌, ◌≡◌, ◌≢◌, refl, Bool, true, false, List, ◌++◌, total, update, total-update,
  le-total, arith, sym, ap, ◌∙◌, append_assoc, [], ◌∷◌,
}
use telemetrix_db.Buffer.{RingBuffer, push_waits, pop_waits, pop_refuses, pop_advance, pop_read}
use telemetrix_db.Buffer.Refine.{Holds, push_write-Holds, pop_advance-Holds}
use telemetrix_db.Buffer.Valid.{IsValid, push_write-IsValid, pop_advance-IsValid}
use telemetrix_db.Buffer.Threads.{
  Pc, Shared, Move, to_list, begin_push, push_acquire, push_block, push_refuse, push_store,
  push_reacquire, pop_acquire, pop_block, pop_refuse, pop_take, pop_reacquire, shutdown_acquire,
  shutdown_store, query_acquire,
}
use telemetrix_db.Buffer.Threads.Weights.{
  holds, asleep_empty, asleep_full, serves_empty, serves_full, closes_empty, closes_full,
}
use telemetrix_db.Buffer.Threads.Invariant.Defs.{Kept, Exclusive, Awake, Inv}

module _ {A : Type 0} where
  -- The premises of a move, for the catch-all clauses below, which cannot name them.
  abbrev Guard : {m m' : Shared A} {p p' : Pc A} → Move m p m' p' → Type 0
  Guard {m} (push_acquire _) = m.held ≡ false
  Guard {m} (push_block _) = push_waits m.ring ≡ true
  Guard {m} (push_refuse _ _) = m.ring.shutdown ≡ true
  Guard {m} (push_store _ _) = (push_waits m.ring ≡ false) × (m.ring.shutdown ≡ false)
  Guard {m} (push_reacquire _) = m.held ≡ false
  Guard {m} (pop_acquire _) = m.held ≡ false
  Guard {m} (pop_block _) = pop_waits m.ring ≡ true
  Guard {m} (pop_refuse _ _) = pop_refuses m.ring ≡ true
  Guard {m} (pop_take _ _) = (pop_waits m.ring ≡ false) × (pop_refuses m.ring ≡ false)
  Guard {m} (pop_reacquire _) = m.held ≡ false
  Guard {m} (shutdown_acquire _) = m.held ≡ false
  Guard {m} (query_acquire _) = m.held ≡ false
  Guard mv = Unit

  guard : {m m' : Shared A} {p p' : Pc A} (mv : Move m p m' p') → Guard mv
  guard (push_acquire g) = g
  guard (push_block g) = g
  guard (push_refuse g h) = h
  guard (push_store g h) = (g, h)
  guard (push_reacquire g) = g
  guard (pop_acquire g) = g
  guard (pop_block g) = g
  guard (pop_refuse g h) = h
  guard (pop_take g h) = (g, h)
  guard (pop_reacquire g) = g
  guard (shutdown_acquire g) = g
  guard (query_acquire g) = g
  guard mv = tt

  -- Taking an item: there is one.
  pop_take-ne : (rb : RingBuffer A) → pop_waits rb ≡ false → pop_refuses rb ≡ false → rb.count ≢ 0
  pop_take-ne rb g h = ground arith

  push_store-ne :
      (rb : RingBuffer A) → push_waits rb ≡ false → rb.shutdown ≡ false → rb.count ≢ rb.capacity
  push_store-ne rb g h = ground arith

  pop_take-Kept :
      (m : Shared A)
      → IsValid m.ring
      → m.ring.count ≢ 0
      → (xs : List A) (b : Bool) → Holds m.ring (record { items = xs; closed = b })
      → m.pushed ≡ m.popped ++ xs
      → Kept
          (record m { ring = pop_advance m.ring; popped = m.popped ++ to_list (pop_read m.ring) })
  pop_take-Kept m v ne [] b h e = absurd (ne (sym h.size))
  pop_take-Kept m v ne (x ∷ xs) b h e =
      let (first, rest) = pop_advance-Holds v h in
      record {
        queue = record { items = xs; closed = b };
        held_by_ring = rest;
        in_order =
            e
            ∙ sym (append_assoc m.popped (x ∷ []) xs)
            ∙ ap (λ o. (m.popped ++ to_list o) ++ xs) (sym first);
      }

  -- How the counts change when thread `i` goes from `p` to `p'`.
  pub record Counts (n i : ℕ) (pc : ℕ → Pc A) (p p' : Pc A) : Type 0 where
    pub holding : total holds n (update pc i p') + holds p ≡ total holds n pc + holds p'
    pub holder : holds p ≤ total holds n pc
    pub e_asleep :
        total asleep_empty n (update pc i p') + asleep_empty p
        ≡ total asleep_empty n pc + asleep_empty p'
    pub f_asleep :
        total asleep_full n (update pc i p') + asleep_full p
        ≡ total asleep_full n pc + asleep_full p'
    pub e_serves :
        total serves_empty n (update pc i p') + serves_empty p
        ≡ total serves_empty n pc + serves_empty p'
    pub f_serves :
        total serves_full n (update pc i p') + serves_full p
        ≡ total serves_full n pc + serves_full p'
    pub e_closes :
        total closes_empty n (update pc i p') + closes_empty p
        ≡ total closes_empty n pc + closes_empty p'
    pub f_closes :
        total closes_full n (update pc i p') + closes_full p
        ≡ total closes_full n pc + closes_full p'

  pub counts : (n i : ℕ) (pc : ℕ → Pc A) (p' : Pc A) → i < n → Counts n i pc (pc i) p'
  counts n i pc p' below = record {
    holding = total-update holds n pc i p' below;
    holder = le-total holds n pc i below;
    e_asleep = total-update asleep_empty n pc i p' below;
    f_asleep = total-update asleep_full n pc i p' below;
    e_serves = total-update serves_empty n pc i p' below;
    f_serves = total-update serves_full n pc i p' below;
    e_closes = total-update closes_empty n pc i p' below;
    f_closes = total-update closes_full n pc i p' below;
  }

  module _ {n : ℕ} (i : ℕ) {m : Shared A} (pc : ℕ → Pc A) where
    Move-Exclusive :
        {p p' : Pc A} {m' : Shared A}
        → Move m p m' p'
        → Counts n i pc p p'
        → Exclusive n m pc
        → Exclusive n m' (update pc i p')
    Move-Exclusive begin_push c e = ground arith
    Move-Exclusive mv c e = ground (arith, guard mv)

    Move-items :
        {p p' : Pc A} {m' : Shared A}
        → Move m p m' p'
        → Counts n i pc p p'
        → (0 < total asleep_empty n pc → m.ring.count ≤ total serves_empty n pc)
        → 0 < total asleep_empty n (update pc i p')
        → m'.ring.count ≤ total serves_empty n (update pc i p')
    Move-items begin_push c a h = ground arith
    Move-items mv c a h = ground (arith, guard mv)

    Move-places :
        {p p' : Pc A} {m' : Shared A}
        → Move m p m' p'
        → Counts n i pc p p'
        → (m.ring.shutdown ≡ false
            → 0 < total asleep_full n pc
            → m.ring.capacity ≤ m.ring.count + total serves_full n pc)
        → m'.ring.shutdown ≡ false
        → 0 < total asleep_full n (update pc i p')
        → m'.ring.capacity ≤ m'.ring.count + total serves_full n (update pc i p')
    Move-places begin_push c a d h = ground arith
    Move-places mv c a d h = ground (arith, guard mv)

    Move-closing_empty :
        {p p' : Pc A} {m' : Shared A}
        → Move m p m' p'
        → Counts n i pc p p'
        → (m.ring.shutdown ≡ true → 0 < total asleep_empty n pc → 0 < total closes_empty n pc)
        → m'.ring.shutdown ≡ true
        → 0 < total asleep_empty n (update pc i p')
        → 0 < total closes_empty n (update pc i p')
    Move-closing_empty begin_push c a d h = ground arith
    Move-closing_empty mv c a d h = ground (arith, guard mv)

    Move-closing_full :
        {p p' : Pc A} {m' : Shared A}
        → Move m p m' p'
        → Counts n i pc p p'
        → (m.ring.shutdown ≡ true → 0 < total asleep_full n pc → 0 < total closes_full n pc)
        → m'.ring.shutdown ≡ true
        → 0 < total asleep_full n (update pc i p')
        → 0 < total closes_full n (update pc i p')
    Move-closing_full begin_push c a d h = ground arith
    Move-closing_full mv c a d h = ground (arith, guard mv)

    Move-Awake :
        {p p' : Pc A} {m' : Shared A}
        → Move m p m' p'
        → Counts n i pc p p'
        → Awake n m pc
        → Awake n m' (update pc i p')
    Move-Awake mv c a = record {
      items_served = Move-items mv c a.items_served;
      places_served = Move-places mv c a.places_served;
      closing_empty = Move-closing_empty mv c a.closing_empty;
      closing_full = Move-closing_full mv c a.closing_full;
    }

  Move-IsValid : {p p' : Pc A} {m m' : Shared A} → Move m p m' p' → IsValid m.ring → IsValid m'.ring
  Move-IsValid {m} (push_store {x} g h) v = push_write-IsValid x v (push_store-ne m.ring g h)
  Move-IsValid {m} (pop_take g h) v = pop_advance-IsValid v (pop_take-ne m.ring g h)
  Move-IsValid shutdown_store v = ground arith
  Move-IsValid mv v = v

  Move-Kept : {p p' : Pc A} {m m' : Shared A} → Move m p m' p' → IsValid m.ring → Kept m → Kept m'
  Move-Kept {m} (push_store {x} g h) v k = record {
    queue = record k.queue { items = k.queue.items ++ (x ∷ []) };
    held_by_ring = push_write-Holds x v (push_store-ne m.ring g h) k.held_by_ring;
    in_order = ap (λ l. l ++ (x ∷ [])) k.in_order ∙ append_assoc m.popped k.queue.items (x ∷ []);
  }
  Move-Kept {m} (pop_take g h) v k =
      pop_take-Kept m v (pop_take-ne m.ring g h) k.queue.items k.queue.closed k.held_by_ring
        k.in_order
  Move-Kept shutdown_store v k = record {
    queue = record k.queue { closed = true };
    held_by_ring = record {
      size = k.held_by_ring.size;
      closed = refl;
      at_place = k.held_by_ring.at_place;
    };
    in_order = k.in_order;
  }
  Move-Kept mv v k = record {
    queue = k.queue;
    held_by_ring = k.held_by_ring;
    in_order = k.in_order;
  }

  pub Move-Inv :
      {n i : ℕ} {m m' : Shared A} {pc : ℕ → Pc A} {p' : Pc A}
      → i < n
      → Move m (pc i) m' p'
      → Inv n m pc
      → Inv n m' (update pc i p')
  Move-Inv {n} {i} {pc} {p'} below mv inv =
      let c = counts n i pc p' below in
      record {
        exclusive = Move-Exclusive i pc mv c inv.exclusive;
        valid = Move-IsValid mv inv.valid;
        kept = Move-Kept mv inv.valid inv.kept;
        awake = Move-Awake i pc mv c inv.awake;
      }
