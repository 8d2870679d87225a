-- ===== src/Program/Delivery.antt =====
-- From the feed to the arena: what becomes of every record while both threads run.
use telemetrix_db.Base.{
  ℕ, ◌≤◌, ◌≡◌, ◌≢◌, ap, ◌∙◌, false, Option, some, List, ◌++◌, map, append_assoc, subst, length,
  arith,
}
use telemetrix_db.Buffer.{VehicleData, RingBuffer}
use telemetrix_db.Buffer.Valid.{IsValid}
use telemetrix_db.Buffer.Spec.{Queue}
use telemetrix_db.Buffer.Refine.{Holds}
use telemetrix_db.Buffer.Threads.Safety.{first_in_first_out}
use telemetrix_db.Parser.{FeedMessage}
use telemetrix_db.Parser.Convert.{HasSizes}
use telemetrix_db.Parser.Queueing.{records}
use telemetrix_db.Storage.{H3}
use telemetrix_db.Storage.Arena.{no_tracks, spatial_arena-shows}
use telemetrix_db.Static.{Names}
use telemetrix_db.Reactor.{Floats, Reactor, initial, consume_all}
use telemetrix_db.Reactor.Consumer.{known, Processed, consume_all-Processed}
use telemetrix_db.Program.{Feeder, Program, Runs}
use telemetrix_db.Program.Roles.{in_hand, waiting}
use telemetrix_db.Program.Invariant.{ahead, Runs-Inv}

module _ {Float Double : Type 0} (floats : Floats Float Double) (stop_names route_names : Names)
    (h3 : H3 Double) (unpack : List ℕ → Option (FeedMessage Float)) (locals : ℕ → VehicleData Float)
    (item : VehicleData Float) (sized : HasSizes item)
    (all_sized : (i : ℕ) → HasSizes (locals i)) where
  -- Where the records of all messages decoded so far are, in a state of the running program.
  pub record Delivered (capacity : ℕ) (s : Program Float) : Type 0 where
    pub queue : Queue (VehicleData Float)
    pub held_by_ring : Holds s.sys.mem.ring queue
    pub within : length queue.items ≤ capacity
    pub all_there :
        records floats.zero_float item s.fed
        ≡ s.consumed
          ++ (in_hand (s.sys.pc 0)
              ++ (queue.items
                  ++ (waiting (s.sys.pc 1) ++ records floats.zero_float item (ahead s.feeder))))
    pub processed :
        Processed floats stop_names route_names h3
          (initial floats)
          no_tracks
          (known floats stop_names route_names h3 (map some s.consumed))
          s.reactor
    pub goes_on : s.feeder ≢ Feeder.stopped

  reactor-Processed :
      (pops : List (Option (VehicleData Float))) {st : Reactor Float}
      → consume_all floats stop_names route_names h3 pops (initial floats) ≡ some st
      → Processed floats stop_names route_names h3
          (initial floats)
          no_tracks
          (known floats stop_names route_names h3 pops)
          st
  reactor-Processed pops {st} e =
      let (st', e', p) =
        consume_all-Processed floats stop_names route_names h3 pops
          (spatial_arena-shows floats.zero_float) (omega arith) in
      let same : st' ≡ st = cc in
      subst
        (Processed floats stop_names route_names h3 (initial floats) no_tracks
          (known floats stop_names route_names h3 pops))
        same p

  -- While `main` and `ingestion_thread` run, in any interleaving and from a valid, empty, open buffer, no
  -- record is lost, repeated or reordered: the records of all messages decoded so far are, in order,
  -- those that `main` has taken, the one it is taking, those in the ring, which are at most its
  -- capacity, the one being pushed, and those still to be parsed. The arena, the counter and the output
  -- are those of the records taken, less the unknown ones; and the ingestion thread never stops.
  pub Runs-Delivered :
      {rb : RingBuffer (VehicleData Float)} {s : Program Float}
      → IsValid rb
      → rb.count ≡ 0
      → rb.shutdown ≡ false
      → Runs floats stop_names route_names h3 unpack locals rb s
      → Delivered rb.capacity s
  Runs-Delivered {rb} {s} v empty live r =
      let inv =
        Runs-Inv floats stop_names route_names h3 unpack locals item sized all_sized rb live r in
      let (q, holds, kept, small) = first_in_first_out v empty inv.reach in
      record {
        queue = q;
        held_by_ring = holds;
        within = small;
        all_there =
            inv.fed_kept
            ∙ ap
                (λ l.
                  (l ++ waiting (s.sys.pc 1)) ++ records floats.zero_float item (ahead s.feeder))
                (kept ∙ ap (λ l. l ++ q.items) inv.on_way)
            ∙ simp (append_assoc);
        processed = reactor-Processed (map some s.consumed) inv.worked;
        goes_on = inv.going;
      }
