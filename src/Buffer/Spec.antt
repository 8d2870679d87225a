-- ===== src/Buffer/Spec.antt =====
-- What a client of the buffer relies on: a queue of at most `capacity` items, oldest first, that
-- can be closed. A closed queue refuses new items and gives out those that it still holds.
use telemetrix_db.Base.{
  ℕ, Bool, true, false, none, some, List, [], ◌∷◌, ◌++◌, length, ◌==◌, if◌then◌else◌,
}
use telemetrix_db.Buffer.{
  Call, push, pop, signal_shutdown, is_shutdown, Reply, blocked, answer, item, done,
}

pub record Queue (A : Type 0) : Type 0 where
  pub items : List A
  pub closed : Bool

module _ {A : Type 0} where
  pop_items : List A → Bool → Reply A × Queue A
  pop_items [] true = (item false none, record { items = []; closed = true })
  pop_items [] false = (blocked, record { items = []; closed = false })
  pop_items (x ∷ xs) closed = (item true (some x), record { items = xs; closed = closed })

  module _ (capacity : ℕ) where
    unfoldable pub step : Queue A → Call A → Reply A × Queue A
    unfolding pop_items
    step q (push x) =
        if q.closed
        then (answer false, q)
        else if length q.items == capacity
        then (blocked, q)
        else (answer true, record q { items = q.items ++ (x ∷ []) })
    step q pop = pop_items q.items q.closed
    step q signal_shutdown = (done, record q { closed = true })
    step q is_shutdown = (answer q.closed, q)

    unfoldable pub replies : Queue A → List (Call A) → List (Reply A)
    unfolding step
    replies q [] = []
    replies q (c ∷ cs) = let (r, q') = step q c in r ∷ replies q' cs
