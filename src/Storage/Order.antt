-- ===== src/Storage/Order.antt =====
-- Calls of `SpatialArena::update` one after the other, with one more at the end.
use telemetrix_db.Base.{
  ◌≡◌, refl, Bool, Option, none, some, List, [], ◌∷◌, ◌++◌, map, map-append, ◌>>=◌, Option-cases,
  inl, inr,
}
use telemetrix_db.Storage.{H3, Buckets, update_arena}
use telemetrix_db.Storage.Arena.{Update, accepted, run}

module _ {Float Double : Type 0} (zero_float : Float) (h3 : H3 Double) where
  abbrev Result : Type 0
  Result = Option (List Bool × Buckets Float)

  -- The rest of the calls, after some with these results.
  abbrev rest : List (Update Float Double) → List Bool × Buckets Float → Result
  rest more (rs, b) = run zero_float h3 more b >>= λ x. some (rs ++ x.0, x.1)

  put_before :
      (r : Bool) (o : Result) (more : List (Update Float Double))
      → ((o >>= rest more) >>= λ x. some (r ∷ x.0, x.1))
        ≡ ((o >>= λ x. some (r ∷ x.0, x.1)) >>= rest more)
  put_before r none more = refl
  put_before r (some (rs, b)) more = elim (Option-cases (run zero_float h3 more b)) [
    | inl fails ↦ rw fails refl
    | inr (x, works) ↦ rw works refl
  ]

  run-append :
      (us more : List (Update Float Double)) (b : Buckets Float)
      → run zero_float h3 (us ++ more) b ≡ (run zero_float h3 us b >>= rest more)
  unfolding run
  run-append [] more b = elim (Option-cases (run zero_float h3 more b)) [
    | inl fails ↦ rw fails refl
    | inr (x, works) ↦ rw works refl
  ]
  run-append (u ∷ us) more b =
      elim (Option-cases
        (update_arena zero_float h3 u.lat u.lon u.sample.speed u.sample.timestamp b)) [
          | inl fails ↦ rw fails refl
          | inr ((r, b'), works) ↦
              rw (works, run-append us more b') (put_before r (run zero_float h3 us b') more)
        ]

  pub run-snoc :
      (us : List (Update Float Double)) (u : Update Float Double) (b : Buckets Float)
      {b' b'' : Buckets Float}
      → run zero_float h3 us b ≡ some (map (accepted zero_float h3) us, b')
      → update_arena zero_float h3 u.lat u.lon u.sample.speed u.sample.timestamp b'
        ≡ some (accepted zero_float h3 u, b'')
      → run zero_float h3 (us ++ (u ∷ [])) b
        ≡ some (map (accepted zero_float h3) (us ++ (u ∷ [])), b'')
  unfolding run
  run-snoc us u b e f =
      rw (run-append us (u ∷ []) b, e, ◌>>=◌, f, map-append (accepted zero_float h3) us (u ∷ []))
        refl
