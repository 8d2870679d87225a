-- ===== src/Buffer/Valid.antt =====
-- The representation invariant of `RingBuffer`: every access is in range, no `int` overflows, and
-- every operation keeps it.
use native.Mathlib.Nat.{mod-add-mod, mod-lt}
use telemetrix_db.Base.{
  ℕ, ◌+◌, ◌-◌, ◌%◌, ◌^◌, ◌≤◌, ◌<◌, ◌≡◌, ◌≢◌, ◌∙◌, refl, ap, sym, subst, true, false, Bool, Option,
  none, some, List, arith, length, length-set,
}
use telemetrix_db.Buffer.{
  RingBuffer, Resources, buffer_init, buffer_destroy, push_write, pop_advance, Call, push, pop,
  signal_shutdown, is_shutdown, call,
}

-- INT_MAX
abbrev pub int_max : ℕ
int_max = 2 ^ 31 - 1

pub record IsValid {A : Type 0} (rb : RingBuffer A) : Type 0 where
  pub storage : length rb.buf ≡ rb.capacity
  pub nonempty : 0 < rb.capacity
  pub small : rb.capacity ≤ int_max
  pub head_in : rb.head < rb.capacity
  pub tail_in : rb.tail < rb.capacity
  pub count_in : rb.count ≤ rb.capacity
  pub linked : rb.head ≡ (rb.tail + rb.count) % rb.capacity

one_back : (n : ℕ) → n + 1 - 1 ≡ n
one_back n = omega arith

two_back : (n : ℕ) → n + 1 + 1 - 1 - 1 ≡ n
two_back n = omega arith

null_ring : {A : Type 0} {o : Option A} {a : A} → o ≡ none → o ≡ some a → ⊥
null_ring e f = cc

one_ring : {A : Type 0} {o : Option A} {a b : A} → o ≡ some a → o ≡ some b → a ≡ b
one_ring e f = cc

module _ {A : Type 0} where
  -- A new ring of this capacity.
  pub record IsFresh (capacity : ℕ) (rb : RingBuffer A) : Type 0 where
    pub valid : IsValid rb
    pub wide : rb.capacity ≡ capacity
    pub empty : rb.count ≡ 0
    pub still_open : rb.shutdown ≡ false

  -- What `buffer_init` is to give when the two allocations answer so. Both succeed: a new ring, and
  -- all that `buffer_destroy` gives back, whatever the ring then holds. One fails: null, nothing new.
  abbrev pub Opened :
      ℕ → Bool → Option (List A) → Resources → Option (RingBuffer A) × Resources → Type 0
  Opened capacity true (some b) live o =
      (rb : RingBuffer A) × (o.0 ≡ some rb)
      × IsFresh capacity rb
      × ((later : RingBuffer A) → buffer_destroy (some later) o.1 ≡ live)
  Opened capacity first block live o = (o.0 ≡ none) × (o.1 ≡ live)

  -- For a positive capacity that is an `int`, and a second allocation that gives as many elements
  -- as were asked for: if both allocations succeed, `buffer_init` returns a ring that is valid,
  -- empty, open and of this capacity, and `buffer_destroy`, whatever the ring then holds, frees and
  -- destroys exactly what `buffer_init` made. If one of them fails, it returns null and keeps nothing.
  pub buffer_init-Opened :
      (first : Bool) (block : Option (List A)) (capacity : ℕ) (live : Resources)
      → ((b : List A) → block ≡ some b → length b ≡ capacity)
      → 0 < capacity
      → capacity ≤ int_max
      → Opened capacity first block live (buffer_init first block capacity live)
  unfolding buffer_init buffer_destroy
  buffer_init-Opened false block capacity live full pos small = (refl, refl)
  buffer_init-Opened true none capacity live full pos small = (refl, rw (one_back live.blocks) refl)
  buffer_init-Opened true (some b) capacity live full pos small = (
    _,
    refl,
    record { valid = new_valid; wide = refl; empty = refl; still_open = refl },
    λ later. rw (two_back live.blocks, two_back live.conditions, one_back live.mutexes) refl,
  )
    where
      new_valid :
          IsValid (record {
            buf = b;
            capacity = capacity;
            head = 0;
            tail = 0;
            count = 0;
            shutdown = false;
          })
      new_valid = grind (arith, mod-lt, full b refl)

  pub Opened-ring :
      (first : Bool) (block : Option (List A)) (live : Resources)
      (o : Option (RingBuffer A) × Resources) {capacity : ℕ} {rb : RingBuffer A}
      → Opened capacity first block live o
      → o.0 ≡ some rb
      → IsFresh capacity rb
  Opened-ring false block live o w e = absurd (null_ring w.0 e)
  Opened-ring true none live o w e = absurd (null_ring w.0 e)
  Opened-ring true (some b) live o {capacity} (rb', e', fresh, back) e =
      subst (IsFresh capacity) (one_ring e' e) fresh

  -- The accesses of push and pop are in range, and their sums stay within `int`.
  pub in_bounds :
      {rb : RingBuffer A}
      → IsValid rb
      → (rb.head < length rb.buf)
        × (rb.tail < length rb.buf)
        × (rb.head + 1 ≤ int_max)
        × (rb.tail + 1 ≤ int_max)
        × (rb.count ≢ rb.capacity → rb.count + 1 ≤ int_max)
  in_bounds v = omega arith

  pub push_write-IsValid :
      {rb : RingBuffer A} (x : A) → IsValid rb → rb.count ≢ rb.capacity → IsValid (push_write x rb)
  push_write-IsValid {rb} x v room = record {
    storage = length-set rb.buf rb.head x ∙ v.storage;
    nonempty = v.nonempty;
    small = v.small;
    head_in = omega (arith, mod-lt (rb.head + 1) v.nonempty);
    tail_in = v.tail_in;
    count_in = omega arith;
    linked =
        ap (λ h. (h + 1) % rb.capacity) v.linked
        ∙ mod-add-mod (rb.tail + rb.count) rb.capacity 1
        ∙ ap (λ k. k % rb.capacity) (omega arith);
  }

  pub pop_advance-IsValid :
      {rb : RingBuffer A} → IsValid rb → rb.count ≢ 0 → IsValid (pop_advance rb)
  pop_advance-IsValid {rb} v some_left = record {
    storage = v.storage;
    nonempty = v.nonempty;
    small = v.small;
    head_in = v.head_in;
    tail_in = omega (arith, mod-lt (rb.tail + 1) v.nonempty);
    count_in = omega arith;
    linked =
        v.linked
        ∙ ap (λ k. k % rb.capacity) (omega arith)
        ∙ sym (mod-add-mod (rb.tail + 1) rb.capacity (rb.count - 1));
  }

  -- Every call on a valid buffer leaves a valid one, of the same capacity: also one that blocks or
  -- is refused.
  pub call-IsValid :
      {rb : RingBuffer A} (c : Call A)
      → IsValid rb
      → IsValid (call rb c).1 × ((call rb c).1.capacity ≡ rb.capacity)
  unfolding call
  call-IsValid {rb} (push x) v = ground (arith, push_write-IsValid x v)
  call-IsValid {rb} pop v = ground (arith, pop_advance-IsValid v)
  call-IsValid signal_shutdown v = ground arith
  call-IsValid is_shutdown v = ground arith
