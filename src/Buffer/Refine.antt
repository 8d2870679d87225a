-- ===== src/Buffer/Refine.antt =====
-- A valid ring buffer behaves as the closable bounded queue of `Spec`.
use native.Mathlib.Nat.{mod-add-mod, mod-eq_of_lt, mod-eq-sub-mod}
use telemetrix_db.Base.{
  ℕ, zero, suc, ◌+◌, ◌-◌, ◌%◌, ◌≤◌, ◌<◌, ◌≡◌, ◌≢◌, ◌∙◌, ap, sym, refl, Bool, true, false, none,
  some, List, [], ◌∷◌, ◌++◌, arith, length, length-append, get_elem?, set, ℕ_discrete, dec_lt, ◌⊎◌,
  inl, inr, ap₂, Bool-cases, ==_iff,
}
use telemetrix_db.Buffer.{
  RingBuffer, push_write, pop_advance, pop_read, Call, push, pop, signal_shutdown, is_shutdown,
  Reply, answer, blocked, item, call, run,
}
use telemetrix_db.Buffer.Valid.{IsValid, call-IsValid}
use telemetrix_db.Buffer.Spec.{Queue, step, replies}

-- A place of the ring, seen from a start below the capacity, with no `%`.
mod-lap : (c n : ℕ) → n < c + c → ((n < c) × (n % c ≡ n)) ⊎ ((c ≤ n) × (n % c ≡ n - c))
mod-lap c n h = elim (dec_lt n c) [
  | yes p ↦ inl (p, mod-eq_of_lt p)
  | no p ↦ inr (omega arith, mod-eq-sub-mod (omega arith) ∙ mod-eq_of_lt (omega arith))
]

-- Places of one lap of the ring differ.
lap-ne : (c t i j : ℕ) → t < c → i < j → j < c → (t + j) % c ≢ (t + i) % c
lap-ne c t i j ht hij hj e =
    omega (arith, mod-lap c (t + i) (omega arith), mod-lap c (t + j) (omega arith))

module _ {A : Type 0} where
  get_elem?-set_self :
      (xs : List A) (i : ℕ) (v : A) → i < length xs → get_elem? (set xs i v) i ≡ some v
  get_elem?-set_self [] i v h = absurd (omega arith)
  get_elem?-set_self (x ∷ xs) zero v h = refl
  get_elem?-set_self (x ∷ xs) (suc i) v h = get_elem?-set_self xs i v (omega arith)

  get_elem?-set_ne :
      (xs : List A) (i j : ℕ) (v : A) → i ≢ j → get_elem? (set xs i v) j ≡ get_elem? xs j
  get_elem?-set_ne [] i j v h = refl
  get_elem?-set_ne (x ∷ xs) zero zero v h = absurd (h refl)
  get_elem?-set_ne (x ∷ xs) zero (suc j) v h = refl
  get_elem?-set_ne (x ∷ xs) (suc i) zero v h = refl
  get_elem?-set_ne (x ∷ xs) (suc i) (suc j) v h = get_elem?-set_ne xs i j v (λ e. h (ap suc e))

  get_elem?-append_left :
      (xs ys : List A) (i : ℕ) → i < length xs → get_elem? (xs ++ ys) i ≡ get_elem? xs i
  get_elem?-append_left [] ys i h = absurd (omega arith)
  get_elem?-append_left (x ∷ xs) ys zero h = refl
  get_elem?-append_left (x ∷ xs) ys (suc i) h = get_elem?-append_left xs ys i (omega arith)

  get_elem?-append_end : (xs : List A) (x : A) → get_elem? (xs ++ x ∷ []) (length xs) ≡ some x
  get_elem?-append_end [] x = refl
  get_elem?-append_end (y ∷ xs) x = get_elem?-append_end xs x

-- The items of `q`, oldest first, stand in the ring from `tail` on.
pub record Holds {A : Type 0} (rb : RingBuffer A) (q : Queue A) : Type 0 where
  pub size : length q.items ≡ rb.count
  pub closed : q.closed ≡ rb.shutdown
  pub at_place :
      (i : ℕ) → i < rb.count → get_elem? rb.buf ((rb.tail + i) % rb.capacity) ≡ get_elem? q.items i

module _ {A : Type 0} (rb : RingBuffer A) where
  call-push_shut : (x : A) → rb.shutdown ≡ true → call rb (push x) ≡ (answer false, rb)
  unfolding call
  call-push_shut x e = ground arith

  call-push_full :
      (x : A) → rb.shutdown ≡ false → rb.count ≡ rb.capacity → call rb (push x) ≡ (blocked, rb)
  unfolding call
  call-push_full x e f = ground arith

  call-push_room :
      (x : A)
      → rb.shutdown ≡ false
      → rb.count ≢ rb.capacity
      → call rb (push x) ≡ (answer true, push_write x rb)
  unfolding call
  call-push_room x e f = ground arith

  call-pop_some : rb.count ≢ 0 → call rb pop ≡ (item true (pop_read rb), pop_advance rb)
  unfolding call
  call-pop_some f = ground arith

  call-pop_blocked : rb.count ≡ 0 → rb.shutdown ≡ false → call rb pop ≡ (blocked, rb)
  unfolding call
  call-pop_blocked f e = ground arith

  call-pop_refused : rb.count ≡ 0 → rb.shutdown ≡ true → call rb pop ≡ (item false none, rb)
  unfolding call
  call-pop_refused f e = ground arith

module _ {A : Type 0} (capacity : ℕ) (q : Queue A) (x : A) where
  step-push_closed : q.closed ≡ true → step capacity q (push x) ≡ (answer false, q)
  unfolding step
  step-push_closed e = rw e

  step-push_full :
      q.closed ≡ false → length q.items ≡ capacity → step capacity q (push x) ≡ (blocked, q)
  unfolding step
  step-push_full e f = rw (e, (==_iff _ _).1 f)

  step-push_room :
      q.closed ≡ false
      → length q.items ≢ capacity
      → step capacity q (push x) ≡ (answer true, record q { items = q.items ++ (x ∷ []) })
  unfolding step
  step-push_room e f = rw e (ground arith)

module _ {A : Type 0} where
  pub push_write-Holds :
      {rb : RingBuffer A} {q : Queue A} (x : A)
      → IsValid rb
      → rb.count ≢ rb.capacity
      → Holds rb q
      → Holds (push_write x rb) (record q { items = q.items ++ (x ∷ []) })
  push_write-Holds {rb} {q} x v room h = record {
    size = omega (arith, length-append q.items (x ∷ []), h.size);
    closed = h.closed;
    at_place = place;
  }
    where
      new :
          get_elem? (set rb.buf rb.head x) ((rb.tail + rb.count) % rb.capacity)
          ≡ get_elem? (q.items ++ (x ∷ [])) rb.count
      new = rw (
        ← v.linked,
        get_elem?-set_self rb.buf rb.head x (omega arith),
        ← h.size,
        get_elem?-append_end q.items x,
      )

      place :
          (i : ℕ)
          → i < rb.count + 1
          → get_elem? (set rb.buf rb.head x) ((rb.tail + i) % rb.capacity)
            ≡ get_elem? (q.items ++ (x ∷ [])) i
      place i below = elim (ℕ_discrete i rb.count) [
        | yes e ↦ rw e new
        | no ne ↦
            get_elem?-set_ne rb.buf rb.head ((rb.tail + i) % rb.capacity) x (
              rw v.linked
                (lap-ne rb.capacity rb.tail i rb.count v.tail_in (omega arith) (omega arith)))
            ∙ h.at_place i (omega arith)
            ∙ sym (get_elem?-append_left q.items (x ∷ []) i (omega (arith, h.size)))
      ]

  -- The next item stands at `tail`, and the rest follows it.
  pub pop_advance-Holds :
      {rb : RingBuffer A} {x : A} {xs : List A} {b : Bool}
      → IsValid rb
      → Holds rb (record { items = x ∷ xs; closed = b })
      → (pop_read rb ≡ some x) × Holds (pop_advance rb) (record { items = xs; closed = b })
  pop_advance-Holds {rb} {x} {xs} v h =
      (first, record { size = omega (arith, h.size); closed = h.closed; at_place = place })
    where
      first : get_elem? rb.buf rb.tail ≡ some x
      first =
          ap (get_elem? rb.buf)
            (sym (mod-eq_of_lt v.tail_in) ∙ ap (λ k. k % rb.capacity) (omega arith))
          ∙ h.at_place 0 (omega (arith, h.size))

      place :
          (i : ℕ)
          → i < rb.count - 1
          → get_elem? rb.buf (((rb.tail + 1) % rb.capacity + i) % rb.capacity) ≡ get_elem? xs i
      place i below =
          ap (get_elem? rb.buf)
            (mod-add-mod (rb.tail + 1) rb.capacity i ∙ ap (λ k. k % rb.capacity) (omega arith))
          ∙ h.at_place (suc i) (omega arith)

  -- The same reply, and a ring that holds the queue.
  abbrev Matches : Reply A × RingBuffer A → Reply A × Queue A → Type 0
  Matches o p = (o.0 ≡ p.0) × Holds o.1 p.1

  module _ {rb : RingBuffer A} {q : Queue A} (v : IsValid rb) (h : Holds rb q) where
    push-Matches : (x : A) → Matches (call rb (push x)) (step rb.capacity q (push x))
    push-Matches x = elim (Bool-cases rb.shutdown) [
      | inl shut ↦
          rw (call-push_shut rb x shut, step-push_closed rb.capacity q x (h.closed ∙ shut))
            (refl, h)
      | inr live ↦ elim (ℕ_discrete rb.count rb.capacity) [
        | yes full ↦
            rw
              (
                call-push_full rb x live full,
                step-push_full rb.capacity q x (h.closed ∙ live) (h.size ∙ full),
              )
              (refl, h)
        | no room ↦
            rw
              (
                call-push_room rb x live room,
                step-push_room rb.capacity q x (h.closed ∙ live) (omega (arith, h.size)),
              )
              (refl, push_write-Holds x v room h)
      ]
    ]

  pop-Matches :
      {rb : RingBuffer A} (xs : List A) (b : Bool)
      → IsValid rb
      → Holds rb (record { items = xs; closed = b })
      → Matches (call rb pop) (step rb.capacity (record { items = xs; closed = b }) pop)
  unfolding step
  pop-Matches {rb} [] true v h = rw (call-pop_refused rb (sym h.size) (sym h.closed)) (refl, h)
  pop-Matches {rb} [] false v h = rw (call-pop_blocked rb (sym h.size) (sym h.closed)) (refl, h)
  pop-Matches {rb} (x ∷ xs) b v h =
      let (first, rest) = pop_advance-Holds v h in
      rw (call-pop_some rb (omega (arith, h.size))) (ap (λ o. item true o) first, rest)

  -- A call on a valid ring gives the reply of the queue, and leaves the ring holding what the queue
  -- holds then.
  call_refines :
      {rb : RingBuffer A} {q : Queue A} (c : Call A)
      → IsValid rb
      → Holds rb q
      → Matches (call rb c) (step rb.capacity q c)
  unfolding call step
  call_refines (push x) v h = push-Matches v h x
  call_refines {q} pop v h = pop-Matches q.items q.closed v h
  call_refines signal_shutdown v h =
      (refl, record { size = h.size; closed = refl; at_place = h.at_place })
  call_refines is_shutdown v h = (ap answer (sym h.closed), h)

  -- On a valid ring that holds a queue, any sequence of calls has the replies of the queue, on
  -- every branch: blocked, refused after a shutdown, or served in order.
  pub run_refines :
      (cs : List (Call A)) {rb : RingBuffer A} {q : Queue A}
      → IsValid rb
      → Holds rb q
      → run rb cs ≡ replies rb.capacity q cs
  unfolding run replies
  run_refines [] v h = refl
  run_refines (c ∷ cs) {rb} {q} v h =
      let (same, after) = call_refines c v h in
      let (valid, cap) = call-IsValid c v in
      ap₂ ◌∷◌ same
        (run_refines cs valid after ∙ ap (λ k. replies k (step rb.capacity q c).1 cs) cap)
