-- ===== src/Parser/Queueing.antt =====
-- Which records reach the queue, in which order, and what the parser's count says.
use telemetrix_db.Base.{
  ℕ, ◌+◌, ◌<◌, ◌≤◌, ◌≡◌, ◌≢◌, ◌⊎◌, ap, fun_ext, refl, Bool, true, false, Option, none, some, List,
  [], ◌∷◌, ◌++◌, length, append-nil, append_assoc, ℕ_discrete, Option-cases, ◌>>=◌, inl, inr, arith,
}
use telemetrix_db.Memory.{Live, new_message, free_message, free_message-new_message}
use telemetrix_db.Buffer.{VehicleData, RingBuffer, blocks, returns, buffer_push, push_write}
use telemetrix_db.Buffer.Valid.{IsValid, push_write-IsValid}
use telemetrix_db.Buffer.Spec.{Queue}
use telemetrix_db.Buffer.Refine.{Holds, push_write-Holds}
use telemetrix_db.Parser.{
  after_push, FeedEntity, FeedMessage, convert, push_entities, parse_and_queue,
}
use telemetrix_db.Parser.Convert.{HasSizes, convert-fresh}

module _ {Float : Type 0} (zero_float : Float) where
  -- The records of a feed: one for each entity that has a vehicle with a position, in order.
  unfoldable pub records : VehicleData Float → List (FeedEntity Float) → List (VehicleData Float)
  records item [] = []
  records item (e ∷ es) = elim (convert zero_float item e) [
    | none ↦ records item es
    | some r ↦ r ∷ records item es
  ]

  -- Pushing a list of records until one is refused, with the count of those accepted.
  unfoldable pub push_records :
      {S : Type 0}
      → (VehicleData Float → S → Option (Bool × S))
      → List (VehicleData Float)
      → ℕ
      → S
      → Option (ℕ × S)
  push_records push [] k s = some (k, s)
  push_records push (r ∷ rs) k s = after_push (push r s) k (λ s'. push_records push rs (k + 1) s')

  module _ (item : VehicleData Float) (sized : HasSizes item) (locals : ℕ → VehicleData Float)
      (all_sized : (i : ℕ) → HasSizes (locals i)) where
    -- The loop pushes the records of the feed, whatever the queue does and whatever its local held.
    pub push_entities-records :
        {S : Type 0} (push : VehicleData Float → S → Option (Bool × S))
        (es : List (FeedEntity Float)) (i k : ℕ) (s : S)
        → push_entities zero_float push locals es i k s ≡ push_records push (records item es) k s
    unfolding push_entities records push_records
    push_entities-records push [] i k s = refl
    push_entities-records push (e ∷ es) i k s =
        rw (convert-fresh zero_float (locals i) item e (all_sized i) sized, push_entities)
          (elim (Option-cases (convert zero_float item e)) [
            | inl skip ↦
                rw (skip, push_entities, records) (push_entities-records push es (i + 1) k s)
            | inr (r, found) ↦
                rw (found, push_entities, records)
                  (ap (after_push (push r s) k)
                    (fun_ext (λ s'. push_entities-records push es (i + 1) (k + 1) s')))
          ])

  -- `buffer_push` where no other thread runs: a call that would wait never returns.
  pub push_alone :
      VehicleData Float
      → RingBuffer (VehicleData Float)
      → Option (Bool × RingBuffer (VehicleData Float))
  push_alone item rb = elim (buffer_push item rb) [ blocks ↦ none | returns b rb' ↦ some (b, rb') ]

  push_alone-room :
      (item : VehicleData Float) (rb : RingBuffer (VehicleData Float))
      → rb.shutdown ≡ false
      → rb.count ≢ rb.capacity
      → push_alone item rb ≡ some (true, push_write item rb)
  unfolding push_alone buffer_push
  push_alone-room item rb live room = ground arith

  push_alone-full :
      (item : VehicleData Float) (rb : RingBuffer (VehicleData Float))
      → rb.shutdown ≡ false
      → rb.count ≡ rb.capacity
      → push_alone item rb ≡ none
  unfolding push_alone buffer_push
  push_alone-full item rb live full = ground arith

  push_alone-shut :
      (item : VehicleData Float) (rb : RingBuffer (VehicleData Float))
      → rb.shutdown ≡ true
      → push_alone item rb ≡ some (false, rb)
  unfolding push_alone buffer_push
  push_alone-shut item rb shut = ground arith

  -- What pushing the records `rs` gives, without a consumer: it never returns if they do not fit;
  -- otherwise all of them are counted, and the ring holds them behind what it held.
  abbrev pub Pushed :
      ℕ
      → RingBuffer (VehicleData Float)
      → Queue (VehicleData Float)
      → List (VehicleData Float)
      → Option (ℕ × RingBuffer (VehicleData Float))
      → Type 0
  Pushed k rb q rs none = rb.capacity < rb.count + length rs
  Pushed k rb q rs (some (k', rb')) =
      (k' ≡ k + length rs)
      × IsValid rb'
      × Holds rb' (record q { items = q.items ++ rs })
      × (rb.count + length rs ≤ rb.capacity)

  Pushed-cons :
      (r : VehicleData Float) (rs : List (VehicleData Float)) (k : ℕ)
      (rb : RingBuffer (VehicleData Float)) (q : Queue (VehicleData Float))
      (o : Option (ℕ × RingBuffer (VehicleData Float)))
      → Pushed (k + 1) (push_write r rb) (record q { items = q.items ++ (r ∷ []) }) rs o
      → Pushed k rb q (r ∷ rs) o
  Pushed-cons r rs k rb q none p = omega arith
  Pushed-cons r rs k rb q (some (k', rb')) p =
      (omega (arith, p.0), p.1, rw (append_assoc q.items (r ∷ []) rs) at p.2, omega (arith, p.3))

  push_records-Pushed :
      (rs : List (VehicleData Float)) (k : ℕ) {rb : RingBuffer (VehicleData Float)}
      {q : Queue (VehicleData Float)}
      → IsValid rb
      → rb.shutdown ≡ false
      → Holds rb q
      → Pushed k rb q rs (push_records push_alone rs k rb)
  unfolding push_records after_push
  push_records-Pushed [] k {rb} {q} v live h =
      (omega arith, v, rw append-nil h, omega (arith, v.count_in))
  push_records-Pushed (r ∷ rs) k {rb} {q} v live h = elim (ℕ_discrete rb.count rb.capacity) [
    | yes full ↦ rw (push_alone-full r rb live full, after_push) (omega arith)
    | no room ↦
        rw (push_alone-room r rb live room, after_push)
          (Pushed-cons r rs k rb q _ (
            push_records-Pushed rs (k + 1) (push_write-IsValid r v room) live
              (push_write-Holds r v room h)))
  ]

  push_records-shut :
      (rs : List (VehicleData Float)) (k : ℕ) (rb : RingBuffer (VehicleData Float))
      → rb.shutdown ≡ true
      → push_records push_alone rs k rb ≡ some (k, rb)
  unfolding push_records after_push
  push_records-shut [] k rb shut = refl
  push_records-shut (r ∷ rs) k rb shut = rw (push_alone-shut r rb shut, after_push)

  -- The same of a whole call of `parse_and_queue`, which leaves live what was live.
  abbrev pub Parsed :
      RingBuffer (VehicleData Float)
      → Queue (VehicleData Float)
      → List (VehicleData Float)
      → Live
      → Option (ℕ × RingBuffer (VehicleData Float) × Live)
      → Type 0
  Parsed rb q rs live none = Pushed 0 rb q rs none
  Parsed rb q rs live (some (k, rb', live')) = Pushed 0 rb q rs (some (k, rb')) × (live' ≡ live)

  Pushed-Parsed :
      (rb : RingBuffer (VehicleData Float)) (q : Queue (VehicleData Float))
      (rs : List (VehicleData Float)) (live : Live)
      (o : Option (ℕ × RingBuffer (VehicleData Float)))
      → Pushed 0 rb q rs o
      → Parsed rb q rs live (o >>= λ r. some (r.0, r.1, free_message (new_message live)))
  Pushed-Parsed rb q rs live none p = p
  Pushed-Parsed rb q rs live (some (k, rb')) p = (p, free_message-new_message live)

  module _ (item : VehicleData Float) (sized : HasSizes item) (locals : ℕ → VehicleData Float)
      (all_sized : (i : ℕ) → HasSizes (locals i)) (unpack : List ℕ → Option (FeedMessage Float))
      (buffer : List ℕ) (live : Live) where
    -- A message that unpacks, on an open valid ring with no consumer: if the records of its
    -- entities fit, all are counted and stand in the ring, in order, behind what it held, and the
    -- message is freed; if they do not, the call never returns (the producer is held back).
    pub parse_and_queue-Pushed :
        {msg : FeedMessage Float} {rb : RingBuffer (VehicleData Float)}
        {q : Queue (VehicleData Float)}
        → unpack buffer ≡ some msg
        → IsValid rb
        → rb.shutdown ≡ false
        → Holds rb q
        → Parsed rb q
            (records item msg.entity)
            live
            (parse_and_queue zero_float push_alone unpack locals buffer rb live)
    unfolding parse_and_queue
    parse_and_queue-Pushed {msg} {rb} {q} e v still_open h =
        rw
          (
            e,
            parse_and_queue,
            push_entities-records item sized locals all_sized push_alone msg.entity 0 0 rb,
          )
          (Pushed-Parsed rb q (records item msg.entity) live _
            (push_records-Pushed (records item msg.entity) 0 v still_open h))

    -- A message that does not unpack, and any message once the ring is shut down, leave the ring as
    -- it was, count nothing, and keep nothing.
    pub parse_and_queue-refused :
        (rb : RingBuffer (VehicleData Float))
        → (unpack buffer ≡ none) ⊎ (rb.shutdown ≡ true)
        → parse_and_queue zero_float push_alone unpack locals buffer rb live ≡ some (0, rb, live)
    unfolding parse_and_queue
    parse_and_queue-refused rb (inl e) = rw (e, parse_and_queue)
    parse_and_queue-refused rb (inr shut) = elim (Option-cases (unpack buffer)) [
      | inl e ↦ rw (e, parse_and_queue)
      | inr (msg, e) ↦
          rw
            (
              e,
              parse_and_queue,
              push_entities-records item sized locals all_sized push_alone msg.entity 0 0 rb,
            )
            (rw (push_records-shut (records item msg.entity) 0 rb shut, ◌>>=◌)
              (ap (λ l. some (0, rb, l)) (free_message-new_message live)))
    ]
