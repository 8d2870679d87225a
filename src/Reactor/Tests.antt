-- ===== src/Reactor/Tests.antt =====
-- The consumer and the ingestion thread on small inputs. Floats are numbers, and the cell of a
-- place is its latitude.
use telemetrix_db.Base.{
  ℕ, ◌+◌, ◌*◌, ◌≡◌, ◌↔◌, refl, Bool, true, false, Option, none, some, List, [], ◌∷◌, map, ℤ, length,
  replicate, arith,
}
use telemetrix_db.Text.{bytes, c_string, strncmp_eq}
use telemetrix_db.Buffer.{VehicleData}
use telemetrix_db.Parser.{FeedMessage, VehiclePosition, Position, unknown, or_else, fill}
use telemetrix_db.Memory.{Live}
use telemetrix_db.Fetcher.{Transfer, fetch_gtfs_data}
use telemetrix_db.Fetcher.Plenty.{plenty, plenty-IsRealloc}
use telemetrix_db.Storage.{H3}
use telemetrix_db.Storage.Arena.{no_tracks, spatial_arena-shows}
use telemetrix_db.Static.{Names, lookup}
use telemetrix_db.Reactor.{
  Floats, Reactor, initial, report_of, is_unknown, consume_all, ingest, ingestion_thread,
}
use telemetrix_db.Reactor.Consumer.{known, Processed, consume_all-Processed}
use telemetrix_db.Reactor.Ingestion.{
  RoundEnds, ingest-RoundEnds, EmptyDownload, download, empty_bodies-leak,
}
use telemetrix_db.Reactor.Pipeline.{unknown_skipped_iff}

abbrev floats : Floats ℕ ℕ
floats = record { zero_float = 0; to_double = λ x. x; times_3_6 = λ x. x * 36 }

abbrev flat_earth : H3 ℕ
flat_earth = record { degs_to_rads = λ d. d; lat_lng_to_cell = λ p r. (p.lng, p.lat) }

abbrev crowded : VehicleData ℕ
crowded = record {
  fleet_number = bytes "8001";
  internal_id = bytes "8001";
  route_id = bytes "60";
  lat = 5;
  lon = 0;
  speed = 10;
  occupancy_status = ℤ.pos 5;
  occupancy_percentage = ℤ.pos 90;
  bearing = 0;
  timestamp = 100;
  current_status = ℤ.pos 2;
  congestion_level = ℤ.pos 0;
  stop_id = bytes "7";
}

abbrev nameless : VehicleData ℕ
nameless = record crowded { internal_id = bytes "UNKNOWN" }

abbrev pops : List (Option (VehicleData ℕ))
pops = some crowded ∷ none ∷ some nameless ∷ []

abbrev stops : Names
stops = (bytes "7", bytes "King") ∷ []

report_of-crowded : report_of floats stops [] crowded ≡ record {
  fleet_number = bytes "8001";
  route_display = bytes "60";
  speed_kmh = 360;
  occupancy = "FULL (5)";
  percent = ℤ.pos 90;
  bearing = 0;
  stop_display = bytes "King";
}
unfolding report_of c_string lookup
report_of-crowded = refl

known-pops : known floats stops [] flat_earth pops ≡ crowded ∷ []
unfolding known c_string strncmp_eq
known-pops = refl

consume_all-Processed_example :
    (st' : Reactor ℕ) × (consume_all floats stops [] flat_earth pops (initial floats) ≡ some st')
    × Processed floats stops [] flat_earth
        (initial floats)
        no_tracks
        (known floats stops [] flat_earth pops)
        st'
consume_all-Processed_example =
    consume_all-Processed floats stops [] flat_earth pops (spatial_arena-shows 0) (omega arith)

abbrev sized_item : VehicleData ℕ
sized_item = record crowded {
  fleet_number = replicate 16 0;
  internal_id = replicate 16 0;
  route_id = replicate 16 0;
  stop_id = replicate 32 0;
}

abbrev somewhere : Position ℕ
somewhere = record {
  latitude = 43;
  longitude = 79;
  has_bearing = false;
  bearing = 5;
  has_speed = true;
  speed = 8;
}

abbrev no_id : VehiclePosition ℕ
no_id = record {
  trip = none;
  vehicle = none;
  position = some somewhere;
  stop_id = none;
  has_current_status = false;
  current_status = ℤ.pos 0;
  has_timestamp = true;
  timestamp = 1700000000;
  has_congestion_level = false;
  congestion_level = ℤ.pos 3;
  has_occupancy_status = true;
  occupancy_status = ℤ.pos 5;
  has_occupancy_percentage = false;
  occupancy_percentage = 40;
}

unknown_skipped_iff_example :
    (is_unknown (fill 0 sized_item (record { id = none; vehicle = some no_id }) no_id somewhere)
      ≡ true)
    ↔ (or_else none unknown ≡ unknown)
unknown_skipped_iff_example =
    unknown_skipped_iff 0 sized_item (record { id = none; vehicle = some no_id }) no_id somewhere
      (omega arith) (omega arith)

-- A body of one byte, which unpacks to a message with one bus.
abbrev one_byte_transfer : Transfer
one_byte_transfer = record { chunks = (1 ∷ []) ∷ []; ends_well = true }

abbrev one_bus : FeedMessage ℕ
one_bus = record { entity = record { id = none; vehicle = some no_id } ∷ [] }

-- A queue that counts.
abbrev counting : VehicleData ℕ → ℕ → Option (Bool × ℕ)
counting item s = some (true, s + 1)

abbrev idle_memory : Live
idle_memory = record { blocks = 5; handles = 0; messages = 0 }

one_byte : (b : List ℕ) → ◌≡◌ {A = Option (List ℕ)} (some (9 ∷ [])) (some b) → length b ≡ 1
one_byte b e = ground arith

ingest-RoundEnds_example :
    RoundEnds 0 counting
      (λ b. some one_bus)
      (λ i. crowded)
      (fetch_gtfs_data plenty (some (9 ∷ [])) true one_byte_transfer idle_memory)
      idle_memory
      3
      (ingest 0 counting
        (λ b. some one_bus)
        (λ i. crowded)
        (fetch_gtfs_data plenty (some (9 ∷ [])) true one_byte_transfer idle_memory)
        3)
ingest-RoundEnds_example =
    ingest-RoundEnds 0 counting (λ b. some one_bus) (λ i. crowded) plenty plenty-IsRealloc
      (some (9 ∷ [])) true one_byte_transfer idle_memory 3 one_byte (omega arith)

-- One download with no chunk, one with an empty one.
abbrev empties : List EmptyDownload
empties =
    record { block = 9 ∷ []; transfer = record { chunks = []; ends_well = true } }
    ∷ record { block = 9 ∷ []; transfer = record { chunks = [] ∷ []; ends_well = true } }
    ∷ []

empty_bodies-leak_example :
    ingestion_thread 0 counting
      (λ b. some one_bus)
      (λ i. crowded)
      (map (λ d. (false, download plenty d)) empties)
      3
      idle_memory
    ≡ some (3, record idle_memory { blocks = 7 })
empty_bodies-leak_example =
    empty_bodies-leak 0 counting (λ b. some one_bus) (λ i. crowded) plenty empties idle_memory 3
      ((refl, refl), ((refl, refl), tt))
