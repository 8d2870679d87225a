-- ===== src/Reactor/Consumer.antt =====
-- What the consumer makes of the records that it pops, over any sequence of pops.
use mathlib.Core.List.{append-nil, append_assoc}
use telemetrix_db.Base.{
  ℕ, suc, ◌+◌, ◌%◌, ◌^◌, ◌<◌, ◌≡◌, ◌∙◌, sym, refl, Bool, true, false, Option, none, some, List, [],
  ◌∷◌, ◌++◌, Bool-cases, inl, inr, if◌then◌else◌, ◌>>=◌, arith,
}
use telemetrix_db.Buffer.{VehicleData}
use telemetrix_db.Storage.{H3, Buckets, update_arena}
use telemetrix_db.Storage.Arena.{
  Update, Tracks, ArenaShows, accepted, track_update, tracks_after, update_arena-shows,
}
use telemetrix_db.Static.{Names}
use telemetrix_db.Reactor.{
  Floats, Report, Reactor, has_passengers, report_of, after_update, is_unknown, process, consume,
  consume_all,
}

module _ {Float Double : Type 0} (floats : Floats Float Double) (stop_names route_names : Names)
    (h3 : H3 Double) where
  -- The records that are not skipped.
  unfoldable pub known : List (Option (VehicleData Float)) → List (VehicleData Float)
  known [] = []
  known (none ∷ pops) = known pops
  known (some bus ∷ pops) = let rest = known pops in if is_unknown bus then rest else bus ∷ rest

  abbrev pub update_of : VehicleData Float → Update Float Double
  update_of bus = record {
    lat = floats.to_double bus.lat;
    lon = floats.to_double bus.lon;
    sample = record { speed = bus.speed; timestamp = bus.timestamp };
  }

  pub updates : List (VehicleData Float) → List (Update Float Double)
  updates [] = []
  updates (bus ∷ buses) = update_of bus ∷ updates buses

  -- How many of the updates H3 accepts.
  pub accepted_count : List (Update Float Double) → ℕ
  accepted_count [] = 0
  accepted_count (u ∷ us) =
      if accepted floats.zero_float h3 u then suc (accepted_count us) else accepted_count us

  -- One report for each record with passengers.
  pub reports_for : List (VehicleData Float) → List (Report Float)
  reports_for [] = []
  reports_for (bus ∷ buses) =
      let rest = reports_for buses in
      if has_passengers bus.occupancy_status
      then report_of floats stop_names route_names bus ∷ rest
      else rest

  -- The state of the consumer after these records, from a state that shows these tracks.
  pub record Processed (st : Reactor Float) (tracks : Tracks Float)
      (buses : List (VehicleData Float)) (st' : Reactor Float) : Type 0 where
    pub arena :
        ArenaShows floats.zero_float st'.buckets
          (tracks_after floats.zero_float h3 (updates buses) tracks)
    pub total : st'.total_processed ≡ (st.total_processed + accepted_count (updates buses)) % 2 ^ 64
    pub output : st'.reports ≡ st.reports ++ reports_for buses

  Processed-none :
      {st : Reactor Float} {tracks : Tracks Float}
      → ArenaShows floats.zero_float st.buckets tracks
      → st.total_processed < 2 ^ 64
      → Processed st tracks [] st
  unfolding updates accepted_count reports_for tracks_after
  Processed-none {st} v small = record {
    arena = v;
    total = omega arith;
    output = sym (append-nil st.reports);
  }

  module _ (bus : VehicleData Float) (buses : List (VehicleData Float)) (st : Reactor Float) where
    next_with : Bool → Buckets Float → Reactor Float
    unfolding after_update
    next_with updated buckets = after_update floats stop_names route_names bus st (updated, buckets)

    total-cons :
        (updated : Bool) (buckets : Buckets Float)
        → accepted floats.zero_float h3 (update_of bus) ≡ updated
        → ((next_with updated buckets).total_processed + accepted_count (updates buses)) % 2 ^ 64
          ≡ (st.total_processed + accepted_count (updates (bus ∷ buses))) % 2 ^ 64
    unfolding next_with after_update updates accepted_count
    total-cons true buckets e = rw e (omega arith)
    total-cons false buckets e = rw e

    small-cons :
        (updated : Bool) (buckets : Buckets Float)
        → st.total_processed < 2 ^ 64
        → (next_with updated buckets).total_processed < 2 ^ 64
    unfolding next_with after_update
    small-cons true buckets h = omega arith
    small-cons false buckets h = h

    output-cons :
        (updated : Bool) (buckets : Buckets Float)
        → (next_with updated buckets).reports ++ reports_for buses
          ≡ st.reports ++ reports_for (bus ∷ buses)
    unfolding next_with after_update reports_for
    output-cons updated buckets = elim (Bool-cases (has_passengers bus.occupancy_status)) [
      | inl e ↦ rw e (
          append_assoc st.reports (report_of floats stop_names route_names bus ∷ [])
            (reports_for buses))
      | inr e ↦ rw e
    ]

    process-next :
        (buckets : Buckets Float) {updated : Bool}
        → update_arena floats.zero_float h3
            (floats.to_double bus.lat)
            (floats.to_double bus.lon)
            bus.speed
            bus.timestamp
            st.buckets
          ≡ some (updated, buckets)
        → process floats stop_names route_names h3 bus st ≡ some (next_with updated buckets)
    unfolding process next_with
    process-next buckets e = rw (e, ◌>>=◌)

    Processed-cons :
        (buckets : Buckets Float) {tracks : Tracks Float} {st' : Reactor Float}
        → Processed
            (next_with (accepted floats.zero_float h3 (update_of bus)) buckets)
            (track_update floats.zero_float h3 (update_of bus) tracks)
            buses
            st'
        → Processed st tracks (bus ∷ buses) st'
    unfolding updates tracks_after
    Processed-cons buckets p = record {
      arena = p.arena;
      total = p.total ∙ total-cons _ buckets refl;
      output = p.output ∙ output-cons _ buckets;
    }

  -- From an arena that shows some tracks and a counter below 2 ^ 64, every sequence of pops is
  -- consumed to its end. Records with the internal id UNKNOWN, and pops
  -- that gave nothing, change nothing. For the others, in order: the arena shows the tracks that
  -- their updates make, the counter has grown by the number of those that H3 accepted (modulo
  -- 2 ^ 64), and a report was printed for each with passengers, and for no other.
  pub consume_all-Processed :
      (pops : List (Option (VehicleData Float))) {st : Reactor Float} {tracks : Tracks Float}
      → ArenaShows floats.zero_float st.buckets tracks
      → st.total_processed < 2 ^ 64
      → (st' : Reactor Float) × (consume_all floats stop_names route_names h3 pops st ≡ some st')
        × Processed st tracks (known pops) st'
  unfolding consume_all consume known next_with
  consume_all-Processed [] {st} v small = (st, refl, Processed-none v small)
  consume_all-Processed (none ∷ pops) v small = consume_all-Processed pops v small
  consume_all-Processed (some bus ∷ pops) {st} {tracks} v small =
      elim (Bool-cases (is_unknown bus)) [
        | inl skip ↦ rw skip (consume_all-Processed pops v small)
        | inr keep ↦
            let (b', e, w) = update_arena-shows floats.zero_float h3 (update_of bus) v in
            let updated : Bool = accepted floats.zero_float h3 (update_of bus) in
            let (st', e', p) =
              consume_all-Processed pops {st = next_with bus [] st updated b'} w
                (small-cons bus [] st updated b' small) in
            rw keep (
              st',
              rw (process-next bus [] st b' e, ◌>>=◌, e'),
              Processed-cons bus (known pops) st b' p,
            )
      ]
