-- ===== src/Program/Invariant.antt =====
-- What holds of the running program: where each record of the feed is, and what the consumer has done.
use telemetrix_db.Base.{
  ℕ, ◌+◌, ◌≡◌, ◌≢◌, refl, sym, ap, ◌∙◌, Bool, true, false, Option, none, some, List, [], ◌∷◌, ◌++◌,
  map, append-nil, append_assoc, map-append, subst, ℕ_discrete, arith,
}
use telemetrix_db.Buffer.{VehicleData, RingBuffer}
use telemetrix_db.Buffer.Threads.{Pc, Shared, Move, Reach, start, later, to_list}
use telemetrix_db.Parser.{FeedEntity, FeedMessage, convert}
use telemetrix_db.Parser.Convert.{HasSizes, convert-fresh}
use telemetrix_db.Parser.Queueing.{records}
use telemetrix_db.Parser.Records.{records-append, records-skip, records-found}
use telemetrix_db.Storage.{H3}
use telemetrix_db.Static.{Names}
use telemetrix_db.Reactor.{Floats, Reactor, initial, consume, consume_all}
use telemetrix_db.Reactor.Rounds.{consume_all-snoc}
use telemetrix_db.Program.{Feeder, Program, Run, Runs, boot, booted, then_run, enter, leave}
use telemetrix_db.Program.Roles.{feeds, in_hand, waiting}
use telemetrix_db.Program.Calls.{entered, left}
use telemetrix_db.Program.Flow.{InRoles, Step-Flows}

-- The entities of the current message that the loop has not come to.
abbrev pub ahead : {Float : Type 0} → Feeder Float → List (FeedEntity Float)
ahead (Feeder.parsing entities i) = entities
ahead (Feeder.pushing entities i) = entities
ahead feeder = []

module _ {Float Double : Type 0} (floats : Floats Float Double) (stop_names route_names : Names)
    (h3 : H3 Double) (unpack : List ℕ → Option (FeedMessage Float)) (locals : ℕ → VehicleData Float)
    (item : VehicleData Float) (sized : HasSizes item) (all_sized : (i : ℕ) → HasSizes (locals i))
    (rb : RingBuffer (VehicleData Float)) where
  -- The records of these entities.
  abbrev record_list : List (FeedEntity Float) → List (VehicleData Float)
  record_list = records floats.zero_float item

  pub record Inv (s : Program Float) : Type 0 where
    pub reach : Reach 2 rb s.sys
    pub roles : InRoles s.sys
    pub on_way : s.sys.mem.popped ≡ s.consumed ++ in_hand (s.sys.pc 0)
    pub fed_kept :
        record_list s.fed
        ≡ (s.sys.mem.pushed ++ waiting (s.sys.pc 1)) ++ record_list (ahead s.feeder)
    pub worked :
        consume_all floats stop_names route_names h3 (map some s.consumed) (initial floats)
        ≡ some s.reactor
    pub going : s.feeder ≢ Feeder.stopped

  boot-Inv : rb.shutdown ≡ false → Inv (boot floats stop_names route_names h3 unpack locals rb)
  unfolding records consume_all
  boot-Inv live = record {
    reach = start;
    roles = record { main_pops = refl; feeder_feeds = refl; still_open = live };
    on_way = refl;
    fed_kept = refl;
    worked = refl;
    going = λ h. cc;
  }

  -- A step that leaves the buffer and the consumer alone.
  feeder_only :
      {s : Program Float} (feeder : Feeder Float) (fed : List (FeedEntity Float))
      → Inv s
      → record_list fed ≡ (s.sys.mem.pushed ++ waiting (s.sys.pc 1)) ++ record_list (ahead feeder)
      → feeder ≢ Feeder.stopped
      → Inv (record s { feeder = feeder; fed = fed })
  feeder_only feeder fed inv kept going = record {
    reach = inv.reach;
    roles = inv.roles;
    on_way = inv.on_way;
    fed_kept = kept;
    worked = inv.worked;
    going = going;
  }

  -- Where the records of the feed are, at a known place of the feeding thread.
  kept_at :
      {s : Program Float} {p : Pc (VehicleData Float)} {feeder : Feeder Float}
      → Inv s
      → s.feeder ≡ feeder
      → s.sys.pc 1 ≡ p
      → record_list s.fed ≡ (s.sys.mem.pushed ++ waiting p) ++ record_list (ahead feeder)
  kept_at {s} {p} inv f at =
      inv.fed_kept
      ∙ ap (λ q. (s.sys.mem.pushed ++ waiting q) ++ record_list (ahead s.feeder)) at
      ∙ ap (λ k. (s.sys.mem.pushed ++ waiting p) ++ record_list (ahead k)) f

  feeder_enters :
      {s : Program Float} (p : Pc (VehicleData Float)) (feeder : Feeder Float)
      → Inv s
      → s.sys.pc 1 ≡ Pc.idle
      → ((m : Shared (VehicleData Float)) → Move m Pc.idle m p)
      → feeds p ≡ true
      → record_list s.fed ≡ (s.sys.mem.pushed ++ waiting p) ++ record_list (ahead feeder)
      → feeder ≢ Feeder.stopped
      → Inv (record s { sys = enter 1 p s.sys; feeder = feeder })
  unfolding ℕ_discrete
  feeder_enters p feeder inv at mv feed kept going = record {
    reach = entered 1 inv.reach (omega arith) at mv;
    roles = record {
      main_pops = inv.roles.main_pops;
      feeder_feeds = feed;
      still_open = inv.roles.still_open;
    };
    on_way = inv.on_way;
    fed_kept = kept;
    worked = inv.worked;
    going = going;
  }

  feeder_leaves :
      {s : Program Float} {p : Pc (VehicleData Float)} (feeder : Feeder Float)
      → Inv s
      → s.sys.pc 1 ≡ p
      → Move s.sys.mem p (record s.sys.mem { held = false }) Pc.idle
      → record_list s.fed ≡ (s.sys.mem.pushed ++ []) ++ record_list (ahead feeder)
      → feeder ≢ Feeder.stopped
      → Inv (record s { sys = leave 1 s.sys; feeder = feeder })
  unfolding ℕ_discrete
  feeder_leaves feeder inv at mv kept going = record {
    reach = left 1 inv.reach (omega arith) at mv;
    roles = record {
      main_pops = inv.roles.main_pops;
      feeder_feeds = refl;
      still_open = inv.roles.still_open;
    };
    on_way = inv.on_way;
    fed_kept = kept;
    worked = inv.worked;
    going = going;
  }

  main_enters :
      {s : Program Float}
      → Inv s
      → s.sys.pc 0 ≡ Pc.idle
      → Inv (record s { sys = enter 0 Pc.pop_lock s.sys })
  unfolding ℕ_discrete
  main_enters {s} inv at = record {
    reach = entered 0 inv.reach (omega arith) at (λ m. Move.begin_pop);
    roles = record {
      main_pops = refl;
      feeder_feeds = inv.roles.feeder_feeds;
      still_open = inv.roles.still_open;
    };
    on_way = inv.on_way ∙ ap (λ p. s.consumed ++ in_hand p) at;
    fed_kept = inv.fed_kept;
    worked = inv.worked;
    going = inv.going;
  }

  main_leaves :
      {s : Program Float} {got : Bool} (o : Option (VehicleData Float)) {st : Reactor Float}
      → Inv s
      → s.sys.pc 0 ≡ Pc.pop_unlock got o
      → consume floats stop_names route_names h3 o s.reactor ≡ some st
      → Inv (record s { sys = leave 0 s.sys; reactor = st; consumed = s.consumed ++ to_list o })
  unfolding ℕ_discrete
  main_leaves {s} o inv at works = record {
    reach = left 0 inv.reach (omega arith) at Move.pop_return;
    roles = record {
      main_pops = refl;
      feeder_feeds = inv.roles.feeder_feeds;
      still_open = inv.roles.still_open;
    };
    on_way =
        inv.on_way
        ∙ ap (λ p. s.consumed ++ in_hand p) at
        ∙ sym (append-nil (s.consumed ++ to_list o));
    fed_kept = inv.fed_kept;
    worked = rw (map-append some s.consumed (to_list o)) (
        consume_all-snoc floats stop_names route_names h3 (map some s.consumed) o (initial floats)
          inv.worked works);
    going = inv.going;
  }

  -- While the buffer is open, the feeding thread is at no place that only a shutdown leads to.
  closed_by :
      {s : Program Float} {p : Pc (VehicleData Float)} → Inv s → s.sys.pc 1 ≡ p → feeds p ≢ true → ⊥
  closed_by inv at ne = ne (subst (λ q. feeds q ≡ true) at inv.roles.feeder_feeds)

  records_more :
      {s : Program Float} (entities : List (FeedEntity Float))
      → Inv s
      → s.feeder ≡ Feeder.downloading
      → record_list (s.fed ++ entities)
        ≡ (s.sys.mem.pushed ++ waiting (s.sys.pc 1)) ++ record_list entities
  unfolding records
  records_more {s} entities inv f =
      records-append floats.zero_float item s.fed entities
      ∙ ap (λ l. l ++ record_list entities)
          (kept_at inv f refl ∙ append-nil (s.sys.mem.pushed ++ waiting (s.sys.pc 1)))

  same_record :
      (entity : FeedEntity Float) (i : ℕ) {o : Option (VehicleData Float)}
      → convert floats.zero_float (locals i) entity ≡ o
      → convert floats.zero_float item entity ≡ o
  same_record entity i e =
      sym (convert-fresh floats.zero_float (locals i) item entity (all_sized i) sized) ∙ e

  records_skip :
      {s : Program Float} {entity : FeedEntity Float} {entities : List (FeedEntity Float)} {i : ℕ}
      → Inv s
      → s.feeder ≡ Feeder.parsing (entity ∷ entities) i
      → convert floats.zero_float (locals i) entity ≡ none
      → record_list s.fed ≡ (s.sys.mem.pushed ++ waiting (s.sys.pc 1)) ++ record_list entities
  records_skip {s} {entity} {entities} {i} inv f skips =
      kept_at inv f refl
      ∙ ap (λ l. (s.sys.mem.pushed ++ waiting (s.sys.pc 1)) ++ l)
          (records-skip floats.zero_float item entity entities (same_record entity i skips))

  records_push :
      {s : Program Float} {entity : FeedEntity Float} {entities : List (FeedEntity Float)} {i : ℕ}
      {r : VehicleData Float}
      → Inv s
      → s.feeder ≡ Feeder.parsing (entity ∷ entities) i
      → convert floats.zero_float (locals i) entity ≡ some r
      → s.sys.pc 1 ≡ Pc.idle
      → record_list s.fed ≡ (s.sys.mem.pushed ++ (r ∷ [])) ++ record_list entities
  records_push {s} {entity} {entities} {i} {r} inv f found at =
      kept_at inv f at
      ∙ ap (λ l. (s.sys.mem.pushed ++ []) ++ l)
          (records-found floats.zero_float item entity entities r (same_record entity i found))
      ∙ ap (λ l. l ++ (r ∷ record_list entities)) (append-nil s.sys.mem.pushed)
      ∙ sym (append_assoc s.sys.mem.pushed (r ∷ []) (record_list entities))

  Run-Inv :
      {s t : Program Float} → Run floats stop_names route_names h3 unpack locals s t → Inv s → Inv t
  Run-Inv {s} (Run.buffer_step st within) inv =
      let f = Step-Flows st within inv.roles in
      record {
        reach = later inv.reach st;
        roles = f.roles;
        on_way = f.taken _ inv.on_way;
        fed_kept = inv.fed_kept ∙ ap (λ l. l ++ record_list (ahead s.feeder)) (sym f.given);
        worked = inv.worked;
        going = inv.going;
      }
  Run-Inv (Run.pop_call at) inv = main_enters inv at
  Run-Inv (Run.pop_return {item = o} at works) inv = main_leaves o inv at works
  Run-Inv (Run.ask f at) inv =
      feeder_enters Pc.query_lock Feeder.asking inv at (λ m. Move.begin_query) refl
        (kept_at inv f at) (λ h. cc)
  Run-Inv (Run.answered {shutdown = true} f at) inv = absurd (closed_by inv at (λ h. cc))
  Run-Inv (Run.answered {shutdown = false} f at) inv =
      feeder_leaves Feeder.downloading inv at Move.query_return (kept_at inv f at) (λ h. cc)
  Run-Inv {s} (Run.no_message d f none_there) inv =
      feeder_only Feeder.at_test s.fed inv (kept_at inv f refl) (λ h. cc)
  Run-Inv {s} (Run.decoded d {entities} f there) inv =
      feeder_only (Feeder.parsing entities 0) (s.fed ++ entities) inv (records_more entities inv f)
        (λ h. cc)
  Run-Inv {s} (Run.skip {entity} {entities} {i} f skips) inv =
      feeder_only (Feeder.parsing entities (i + 1)) s.fed inv (records_skip inv f skips) (λ h. cc)
  Run-Inv {s} (Run.push_call {entity} {entities} {i} {item = r} f found at) inv =
      feeder_enters (Pc.push_lock r) (Feeder.pushing entities (i + 1)) inv at (λ m. Move.begin_push)
        refl (records_push inv f found at) (λ h. cc)
  Run-Inv (Run.push_return {pushed = true} {entities} {i} f at) inv =
      feeder_leaves (Feeder.parsing entities i) inv at Move.push_return (kept_at inv f at) (λ h. cc)
  Run-Inv (Run.push_return {pushed = false} f at) inv = absurd (closed_by inv at (λ h. cc))
  Run-Inv {s} (Run.round_done {i} f) inv =
      feeder_only Feeder.at_test s.fed inv (kept_at inv f refl) (λ h. cc)

  pub Runs-Inv :
      {s : Program Float}
      → rb.shutdown ≡ false
      → Runs floats stop_names route_names h3 unpack locals rb s
      → Inv s
  Runs-Inv live booted = boot-Inv live
  Runs-Inv live (then_run r st) = Run-Inv st (Runs-Inv live r)
