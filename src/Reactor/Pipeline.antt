-- ===== src/Reactor/Pipeline.antt =====
-- From the feed to the arena: which vehicles of a feed the consumer skips.
use telemetrix_db.Base.{
  ℕ, zero, suc, ◌<◌, ◌≡◌, ◌↔◌, ap, ap₂, true, List, [], ◌∷◌, length, take, arith,
}
use telemetrix_db.Text.Laws.{strncmp_eq_iff}
use telemetrix_db.Buffer.{VehicleData}
use telemetrix_db.Parser.{FeedEntity, VehiclePosition, Position, unknown, or_else, id_of, fill}
use telemetrix_db.Parser.Convert.{HasSizes, HasTexts, fill-ReadsAs}
use telemetrix_db.Reactor.{is_unknown}

-- A cut that leaves less than its bound has cut nothing.
take-short : (n : ℕ) (s t : List ℕ) → length t < n → take n s ≡ t → s ≡ t
take-short zero s t h e = absurd (omega arith)
take-short (suc n) [] t h e = e
take-short (suc n) (c ∷ s) [] h e = absurd (cons_ne e)
  where
    cons_ne : ◌≡◌ {A = List ℕ} (c ∷ take n s) [] → ⊥
    cons_ne p = cc
take-short (suc n) (c ∷ s) (d ∷ t) h e = ap₂ ◌∷◌ (cc) (take-short n s t (omega arith) (cc))

unknown-cut_iff : (s : List ℕ) → (take 16 (take 15 s) ≡ take 16 unknown) ↔ (s ≡ unknown)
unknown-cut_iff s = (
  λ e. take-short 15 s unknown (omega arith) (take-short 16 (take 15 s) unknown (omega arith) e),
  λ e. ap (λ t. take 16 (take 15 t)) e,
)

-- The consumer skips the record of a vehicle exactly if the feed gives the vehicle no id, or the
-- very text UNKNOWN as its id: no cut of a longer id is taken for it.
pub unknown_skipped_iff :
    {Float : Type 0} (zero_float : Float) (item : VehicleData Float) (entity : FeedEntity Float)
    (vehicle : VehiclePosition Float) (position : Position Float)
    → HasSizes item
    → HasTexts entity vehicle
    → (is_unknown (fill zero_float item entity vehicle position) ≡ true)
      ↔ (or_else (id_of vehicle.vehicle) unknown ≡ unknown)
unknown_skipped_iff zero_float item entity vehicle position z t =
    let r = fill-ReadsAs zero_float item entity vehicle position z t in
    let id : List ℕ = or_else (id_of vehicle.vehicle) unknown in
    rw r.internal_id (
      λ h. (unknown-cut_iff id).0 ((strncmp_eq_iff 16 (take 15 id) unknown).0 h),
      λ e. (strncmp_eq_iff 16 (take 15 id) unknown).1 ((unknown-cut_iff id).1 e),
    )
