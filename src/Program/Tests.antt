-- ===== src/Program/Tests.antt =====
-- A run of the program: one message with a vehicle and an alert, up to the report about the vehicle.
-- Floats are numbers, and the cell of a place is its latitude.
use telemetrix_db.Base.{
  ℕ, zero, suc, ◌*◌, ◌<◌, ◌≡◌, refl, true, false, Option, none, some, List, [], ◌∷◌, ℤ, replicate,
  length, subst, inr, length-replicate, ℕ_discrete, arith,
}
use telemetrix_db.Text.{bytes}
use telemetrix_db.Buffer.{
  VehicleData, RingBuffer, Resources, buffer_init, push_write, pop_advance, pop_read,
}
use telemetrix_db.Buffer.Valid.{IsValid}
use telemetrix_db.Buffer.Threads.{
  Pc, Shared, Move, Signal, pick, signal_empty, sleeps_empty, to_list,
}
use telemetrix_db.Parser.{Position, VehiclePosition, FeedEntity, FeedMessage, fill, convert}
use telemetrix_db.Parser.Convert.{HasSizes}
use telemetrix_db.Fetcher.{Fetched}
use telemetrix_db.Storage.{H3}
use telemetrix_db.Static.{load_file, load_static_gtfs}
use telemetrix_db.Reactor.{Floats}
use telemetrix_db.Program.{
  Feeder, Program, Run, Runs, boot, booted, then_run, enter, leave, entities_of,
}
use telemetrix_db.Program.Main.{Main, looping, main_boot, Expected, Main-Expected}
use telemetrix_db.Program.Motion.{Proceeds}
use telemetrix_db.Program.Progress.{Runs-Proceeds}

abbrev floats : Floats ℕ ℕ
floats = record { zero_float = 0; to_double = λ x. x; times_3_6 = λ x. x * 36 }

abbrev flat_earth : H3 ℕ
flat_earth = record { degs_to_rads = λ d. d; lat_lng_to_cell = λ p r. (p.lng, p.lat) }

abbrev blank : VehicleData ℕ
blank = record {
  fleet_number = replicate 16 7;
  internal_id = replicate 16 7;
  route_id = replicate 16 7;
  lat = 7;
  lon = 7;
  speed = 7;
  occupancy_status = ℤ.pos 7;
  occupancy_percentage = ℤ.pos 7;
  bearing = 7;
  timestamp = 7;
  current_status = ℤ.pos 7;
  congestion_level = ℤ.pos 7;
  stop_id = replicate 32 7;
}

blank-HasSizes : HasSizes blank
blank-HasSizes = record {
  fleet_number = length-replicate {A = ℕ} 16 7;
  internal_id = length-replicate {A = ℕ} 16 7;
  route_id = length-replicate {A = ℕ} 16 7;
  stop_id = length-replicate {A = ℕ} 32 7;
}

abbrev place : Position ℕ
place = record {
  latitude = 5;
  longitude = 0;
  has_bearing = false;
  bearing = 0;
  has_speed = true;
  speed = 8;
}

abbrev bus : VehiclePosition ℕ
bus = record {
  trip = none;
  vehicle = some (record { id = some (bytes "8001"); label = none });
  position = some place;
  stop_id = none;
  has_current_status = false;
  current_status = ℤ.pos 0;
  has_timestamp = true;
  timestamp = 100;
  has_congestion_level = false;
  congestion_level = ℤ.pos 0;
  has_occupancy_status = true;
  occupancy_status = ℤ.pos 5;
  has_occupancy_percentage = false;
  occupancy_percentage = 0;
}

abbrev bus_entity : FeedEntity ℕ
bus_entity = record { id = some (bytes "e1"); vehicle = some bus }

abbrev feed : List (FeedEntity ℕ)
feed = record { id = none; vehicle = none } ∷ bus_entity ∷ []

abbrev unpack : List ℕ → Option (FeedMessage ℕ)
unpack b = some (record { entity = feed })

abbrev locals : ℕ → VehicleData ℕ
locals i = blank

abbrev block : List (VehicleData ℕ)
block = replicate 1024 blank

abbrev ring : RingBuffer (VehicleData ℕ)
ring = record { buf = block; capacity = 1024; head = 0; tail = 0; count = 0; shutdown = false }

ring-IsValid : IsValid ring
ring-IsValid = omega (arith, length-replicate {A = VehicleData ℕ} 1024 blank)

abbrev Ran : Program ℕ → Type 0
Ran = Runs floats [] [] flat_earth unpack locals ring

abbrev Ran1 : Program ℕ → Program ℕ → Type 0
Ran1 = Run floats [] [] flat_earth unpack locals

-- Thread `i` makes a move inside the buffer.
abbrev moved : ℕ → Shared (VehicleData ℕ) → Pc (VehicleData ℕ) → Program ℕ → Program ℕ
moved i m p s = record s { sys = record { mem = m; pc = (enter i p s.sys).pc } }

abbrev s0 : Program ℕ
s0 = boot floats [] [] flat_earth unpack locals ring

abbrev s1 : Program ℕ
s1 = record s0 { sys = enter 1 Pc.query_lock s0.sys; feeder = Feeder.asking }

abbrev s2 : Program ℕ
s2 = moved 1 (record s1.sys.mem { held = true }) Pc.query_read s1

abbrev s3 : Program ℕ
s3 = moved 1 s2.sys.mem (Pc.query_unlock false) s2

abbrev s4 : Program ℕ
s4 = record s3 { sys = leave 1 s3.sys; feeder = Feeder.downloading }

abbrev s5 : Program ℕ
s5 = record s4 { feeder = Feeder.parsing feed 0; fed = feed }

asked : Ran s4
unfolding ℕ_discrete
asked =
    then_run
      (then_run
        (then_run (then_run booted (Run.ask refl refl))
          (Run.buffer_step (pick 1 (omega arith) (Move.query_acquire refl)) (refl, refl)))
        (Run.buffer_step (pick 1 (omega arith) Move.query_load) (refl, refl)))
      (Run.answered refl refl)

abbrev download : Fetched
download = record {
  payload = some (9 ∷ []);
  out_size = some 1;
  live = record { blocks = 1; handles = 0; messages = 0 };
}

abbrev bus_record : VehicleData ℕ
bus_record = fill 0 blank bus_entity bus place

abbrev s6 : Program ℕ
s6 = record s5 { feeder = Feeder.parsing (bus_entity ∷ []) 1 }

abbrev s7 : Program ℕ
s7 = record s6 { sys = enter 1 (Pc.push_lock bus_record) s6.sys; feeder = Feeder.pushing [] 2 }

abbrev s8 : Program ℕ
s8 = moved 1 (record s7.sys.mem { held = true }) (Pc.push_test bus_record) s7

abbrev s9 : Program ℕ
s9 =
    moved 1
      (record s8.sys.mem { ring = push_write bus_record s8.sys.mem.ring; pushed = bus_record ∷ [] })
      Pc.push_signal s8

abbrev s10 : Program ℕ
s10 = moved 1 s9.sys.mem (Pc.push_unlock true) s9

abbrev s11 : Program ℕ
s11 = record s10 { sys = leave 1 s10.sys; feeder = Feeder.parsing [] 2 }

no_sleeper : (j : ℕ) → j < 2 → sleeps_empty (s10.sys.pc j) ≡ false
unfolding ℕ_discrete
no_sleeper zero below = refl
no_sleeper (suc zero) below = refl
no_sleeper (suc (suc j)) below = absurd (omega arith)

pushed_one : Ran s11
unfolding ℕ_discrete convert entities_of
pushed_one =
    then_run
      (then_run
        (then_run
          (then_run
            (then_run
              (then_run (then_run asked (Run.decoded download refl refl)) (Run.skip refl refl))
              (Run.push_call refl refl refl))
            (Run.buffer_step (pick 1 (omega arith) (Move.push_acquire refl)) (refl, refl)))
          (Run.buffer_step (pick 1 (omega arith) (Move.push_store refl refl)) (refl, refl)))
        (Run.buffer_step (signal_empty 1 (omega arith) refl (Signal.nobody no_sleeper)) tt))
      (Run.push_return refl refl)

abbrev s12 : Program ℕ
s12 = record s11 { sys = enter 0 Pc.pop_lock s11.sys }

abbrev s13 : Program ℕ
s13 = moved 0 (record s12.sys.mem { held = true }) Pc.pop_test s12

abbrev s14 : Program ℕ
s14 =
    moved 0
      (record s13.sys.mem {
        ring = pop_advance s13.sys.mem.ring;
        popped = to_list (pop_read s13.sys.mem.ring);
      })
      (Pc.pop_signal (pop_read s13.sys.mem.ring)) s13

popped_one : Ran s14
unfolding ℕ_discrete
popped_one =
    then_run
      (then_run (then_run pushed_one (Run.pop_call refl))
        (Run.buffer_step (pick 0 (omega arith) (Move.pop_acquire refl)) (refl, refl)))
      (Run.buffer_step (pick 0 (omega arith) (Move.pop_take refl refl)) (refl, refl))

Runs-Proceeds_example : Proceeds floats [] [] flat_earth unpack locals s14
Runs-Proceeds_example =
    Runs-Proceeds floats [] [] flat_earth unpack locals blank blank-HasSizes (λ i. blank-HasSizes)
      ring-IsValid refl refl popped_one

-- The block that the second allocation gives.
block-full : (b : List (VehicleData ℕ)) → some block ≡ some b → length b ≡ 1024
block-full b e =
    let same : block ≡ b = cc in
    subst (λ x. length x ≡ 1024) same (length-replicate {A = VehicleData ℕ} 1024 blank)

abbrev none_live : Resources
none_live = record { blocks = 0; mutexes = 0; conditions = 0 }

popped-Main : Main floats flat_earth unpack locals none none true (some block) none_live (inr s14)
unfolding main_boot buffer_init load_static_gtfs load_file
popped-Main = looping refl popped_one

Main-Expected_example :
    Expected floats flat_earth unpack locals none none true
      (some block)
      none_live
      blank
      blank-HasSizes
      (λ i. blank-HasSizes)
      block-full
      (inr s14)
Main-Expected_example =
    Main-Expected floats flat_earth unpack locals none none true (some block) none_live blank
      blank-HasSizes (λ i. blank-HasSizes) block-full popped-Main

-- One stop with its name, and no file of routes.
abbrev stops_txt : List ℕ
stops_txt = bytes "stop_id,stop_code,stop_name\n7,1,King\n"
