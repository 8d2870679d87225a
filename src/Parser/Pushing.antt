-- ===== src/Parser/Pushing.antt =====
-- The loop of `parse_and_queue` told by what the queue answers: which calls of `buffer_push` it
-- makes, with which records, and where it ends.
use telemetrix_db.Base.{
  ℕ, ◌+◌, ◌≡◌, refl, ap, ◌∙◌, Bool, true, false, Option, none, some, List, [], ◌∷◌, ◌++◌, map,
  length, ◌⊎◌, inl, inr, Option-cases, subst, arith,
}
use telemetrix_db.Buffer.{VehicleData}
use telemetrix_db.Parser.{
  VehiclePosition, Position, FeedEntity, fill, fill_vehicle, fill_position, convert, after_push,
  push_entities,
}
use telemetrix_db.Parser.Convert.{HasSizes}
use telemetrix_db.Parser.Queueing.{records, push_records, push_entities-records}

-- An entity whose vehicle has a position, with both.
pub record Located (Float : Type 0) : Type 0 where
  pub entity : FeedEntity Float
  pub vehicle : VehiclePosition Float
  pub position : Position Float

-- The located entities of a feed, in order.
abbrev pub with_position :
    {Float : Type 0}
    → FeedEntity Float
    → VehiclePosition Float
    → Option (Position Float)
    → List (Located Float)
    → List (Located Float)
with_position e v none rest = rest
with_position e v (some p) rest = record { entity = e; vehicle = v; position = p } ∷ rest

abbrev pub with_vehicle :
    {Float : Type 0}
    → FeedEntity Float
    → Option (VehiclePosition Float)
    → List (Located Float)
    → List (Located Float)
with_vehicle e none rest = rest
with_vehicle e (some v) rest = with_position e v v.position rest

pub located : {Float : Type 0} → List (FeedEntity Float) → List (Located Float)
located [] = []
located (e ∷ es) = with_vehicle e e.vehicle (located es)

-- The queue accepts these records one after the other, from the one state to the other.
pub data Accepts {A S : Type 0} (push : A → S → Option (Bool × S)) : S → List A → S → Type 0 where
  nothing : {s : S} → Accepts push s [] s
  next :
      {s s' t : S} {r : A} {rs : List A}
      → push r s ≡ some (true, s')
      → Accepts push s' rs t
      → Accepts push s (r ∷ rs) t

-- How a loop over `rs` ends after `k` records: all are pushed, or the next call never returns, or
-- it is refused, and then it was the last.
abbrev pub Stops :
    {A S : Type 0} → (A → S → Option (Bool × S)) → List A → S → ℕ → Option (ℕ × S) → Type 0
Stops push [] t k o = o ≡ some (k, t)
Stops {S = S} push (r ∷ rs) t k o =
    ((push r t ≡ none) × (o ≡ none))
    ⊎ ((t' : S) × (push r t ≡ some (false, t')) × (o ≡ some (k, t')))

-- What a loop that is to push these records, from a count and a state, has done.
pub record Pushes {A S : Type 0} (push : A → S → Option (Bool × S)) (rs : List A) (k : ℕ) (s : S)
    (o : Option (ℕ × S)) : Type 0 where
  pub accepted : List A
  pub left : List A
  pub at : S
  pub in_order : rs ≡ accepted ++ left
  pub taken : Accepts push s accepted at
  pub stops : Stops push left at (k + length accepted) o

one_more : {A : Type 0} (k : ℕ) (r : A) (rs : List A) → k + 1 + length rs ≡ k + length (r ∷ rs)
one_more k r rs = omega arith

module _ {Float : Type 0} (zero_float : Float) where
  push_records-Pushes :
      {S : Type 0} (push : VehicleData Float → S → Option (Bool × S))
      (rs : List (VehicleData Float)) (k : ℕ) (s : S)
      → Pushes push rs k s (push_records zero_float push rs k s)
  unfolding push_records after_push
  push_records-Pushes push [] k s = record {
    accepted = [];
    left = [];
    at = s;
    in_order = refl;
    taken = nothing;
    stops = ap (λ n. some (n, s)) (omega arith);
  }
  push_records-Pushes push (r ∷ rs) k s = elim (Option-cases (push r s)) [
    | inl waits ↦ record {
      accepted = [];
      left = r ∷ rs;
      at = s;
      in_order = refl;
      taken = nothing;
      stops = inl (waits, rw (waits, after_push));
    }
    | inr ((false, s'), refused) ↦ record {
      accepted = [];
      left = r ∷ rs;
      at = s;
      in_order = refl;
      taken = nothing;
      stops = inr (s', refused, rw (refused, after_push) (ap (λ n. some (n, s')) (omega arith)));
    }
    | inr ((true, s'), pushed) ↦
        let p = push_records-Pushes push rs (k + 1) s' in
        record {
          accepted = r ∷ p.accepted;
          left = p.left;
          at = p.at;
          in_order = ap (λ l. r ∷ l) p.in_order;
          taken = next pushed p.taken;
          stops =
              rw (pushed, after_push)
                (subst (λ n. Stops push p.left p.at n (push_records zero_float push rs (k + 1) s'))
                  (one_more k r p.accepted) p.stops);
        }
  ]

  abbrev filled : VehicleData Float → List (Located Float) → List (VehicleData Float)
  filled item = map (λ x. fill zero_float item x.entity x.vehicle x.position)

  -- One entity before the records of the others.
  abbrev record_first :
      Option (VehicleData Float) → List (VehicleData Float) → List (VehicleData Float)
  record_first o rs = elim o [ none ↦ rs | some r ↦ r ∷ rs ]

  position-filled :
      (item : VehicleData Float) (e : FeedEntity Float) (v : VehiclePosition Float)
      (p : Option (Position Float)) (rest : List (Located Float))
      → record_first (fill_position zero_float item e v p) (filled item rest)
        ≡ filled item (with_position e v p rest)
  unfolding fill_position
  position-filled item e v none rest = refl
  position-filled item e v (some p) rest = refl

  vehicle-filled :
      (item : VehicleData Float) (e : FeedEntity Float) (v : Option (VehiclePosition Float))
      (rest : List (Located Float))
      → record_first (fill_vehicle zero_float item e v) (filled item rest)
        ≡ filled item (with_vehicle e v rest)
  unfolding fill_vehicle
  vehicle-filled item e none rest = refl
  vehicle-filled item e (some v) rest = position-filled item e v v.position rest

  records-located :
      (item : VehicleData Float) (es : List (FeedEntity Float))
      → records zero_float item es ≡ filled item (located es)
  unfolding records located convert
  records-located item [] = refl
  records-located item (e ∷ es) =
      ap (record_first (convert zero_float item e)) (records-located item es)
      ∙ vehicle-filled item e e.vehicle (located es)

  -- The loop over the entities, for any queue and whatever its local held: it pushes, in order, the
  -- records of the entities whose vehicle has a position, until all are accepted, or a call of
  -- `buffer_push` never returns, or one is refused; a refused call is the last one. If the loop ends,
  -- its state is the one after these calls, and it has counted those accepted.
  pub push_entities-Pushes :
      (item : VehicleData Float)
      → HasSizes item
      → (locals : ℕ → VehicleData Float) → ((i : ℕ) → HasSizes (locals i))
      → {S : Type 0} (push : VehicleData Float → S → Option (Bool × S))
        (es : List (FeedEntity Float)) (i k : ℕ) (s : S)
      → Pushes push
          (map (λ x. fill zero_float item x.entity x.vehicle x.position) (located es))
          k
          s
          (push_entities zero_float push locals es i k s)
  push_entities-Pushes item sized locals all_sized push es i k s =
      rw
        (
          push_entities-records zero_float item sized locals all_sized push es i k s,
          ← records-located item es,
        )
        (push_records-Pushes push (records zero_float item es) k s)
