-- ===== src/Reactor/Rounds.antt =====
-- The consumer's rounds, one more at the end.
use telemetrix_db.Base.{
  ◌≡◌, ◌∙◌, refl, Option, none, some, List, [], ◌∷◌, ◌++◌, map, ◌>>=◌, Option-cases, inl, inr,
}
use telemetrix_db.Buffer.{VehicleData}
use telemetrix_db.Buffer.Threads.{to_list}
use telemetrix_db.Storage.{H3}
use telemetrix_db.Static.{Names}
use telemetrix_db.Reactor.{Floats, Reactor, consume, consume_all}

module _ {Float Double : Type 0} (floats : Floats Float Double) (stop_names route_names : Names)
    (h3 : H3 Double) where
  pub consume_all-append :
      (pops more : List (Option (VehicleData Float))) (st : Reactor Float)
      → consume_all floats stop_names route_names h3 (pops ++ more) st ≡ (
          consume_all floats stop_names route_names h3 pops st
          >>= consume_all floats stop_names route_names h3 more)
  unfolding consume_all
  consume_all-append [] more st = refl
  consume_all-append (p ∷ pops) more st =
      elim (Option-cases (consume floats stop_names route_names h3 p st)) [
        | inl fails ↦ rw (fails, consume_all)
        | inr (st1, next) ↦ rw (next, consume_all) (consume_all-append pops more st1)
      ]

  consume_all-one :
      (o : Option (VehicleData Float)) (st : Reactor Float)
      → consume_all floats stop_names route_names h3 (map some (to_list o)) st
        ≡ consume floats stop_names route_names h3 o st
  unfolding consume_all consume
  consume_all-one none st = refl
  consume_all-one (some bus) st =
      elim (Option-cases (consume floats stop_names route_names h3 (some bus) st)) [
        | inl fails ↦ rw (fails, consume_all)
        | inr (st1, next) ↦ rw (next, consume_all)
      ]

  -- `consume` on nothing changes nothing, so a pop that gave nothing need not be listed.
  pub consume_all-snoc :
      (pops : List (Option (VehicleData Float))) (o : Option (VehicleData Float))
      (st : Reactor Float) {st' st'' : Reactor Float}
      → consume_all floats stop_names route_names h3 pops st ≡ some st'
      → consume floats stop_names route_names h3 o st' ≡ some st''
      → consume_all floats stop_names route_names h3 (pops ++ map some (to_list o)) st ≡ some st''
  consume_all-snoc pops o st {st'} e f =
      rw (consume_all-append pops (map some (to_list o)) st, e, ◌>>=◌) (consume_all-one o st' ∙ f)
