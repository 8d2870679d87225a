-- ===== src/Parser/Records.antt =====
-- The records of a feed, one entity after the other.
use telemetrix_db.Base.{◌≡◌, refl, ap, none, some, List, [], ◌∷◌, ◌++◌, Option-cases, inl, inr}
use telemetrix_db.Buffer.{VehicleData}
use telemetrix_db.Parser.{FeedEntity, convert}
use telemetrix_db.Parser.Queueing.{records}

module _ {Float : Type 0} (zero_float : Float) (item : VehicleData Float) where
  pub records-append :
      (es fs : List (FeedEntity Float))
      → records zero_float item (es ++ fs)
        ≡ records zero_float item es ++ records zero_float item fs
  unfolding records
  records-append [] fs = refl
  records-append (e ∷ es) fs = elim (Option-cases (convert zero_float item e)) [
    | inl skip ↦ rw (skip, records) (records-append es fs)
    | inr (r, found) ↦ rw (found, records) (ap (λ l. r ∷ l) (records-append es fs))
  ]

  pub records-skip :
      (e : FeedEntity Float) (es : List (FeedEntity Float))
      → convert zero_float item e ≡ none
      → records zero_float item (e ∷ es) ≡ records zero_float item es
  unfolding records
  records-skip e es skip = rw (skip, records)

  pub records-found :
      (e : FeedEntity Float) (es : List (FeedEntity Float)) (r : VehicleData Float)
      → convert zero_float item e ≡ some r
      → records zero_float item (e ∷ es) ≡ r ∷ records zero_float item es
  unfolding records
  records-found e es r found = rw (found, records)
