-- ===== src/Static/Tests.antt =====
-- The dictionaries on small files.
use telemetrix_db.Base.{ℕ, ◌≡◌, ◌++◌, refl, none, some, List, [], ◌∷◌, map, arith}
use telemetrix_db.Text.{bytes}
use telemetrix_db.Static.{
  quote, newline, Locals, strip_quotes, split, read_stop, read_route, lookup, insert, load_row,
  load_rows, load_file, load_static_gtfs, Names,
}
use telemetrix_db.Static.Rows.{short_row-keeps_name, quoted_comma-cuts}
use telemetrix_db.Static.Writer.{Stop, Route, print_stop, print_route, print_lines}
use telemetrix_db.Static.RoundTrip.{last_name, stop_entry, route_entry, load_static_gtfs-print}
use telemetrix_db.Static.Files.{lines_from, load_lines, but_first, load_file-lines}

abbrev stops_txt : List ℕ
stops_txt =
    bytes "stop_id,stop_code,stop_name"
    ++ (newline ∷ bytes "7,1,King" ++ (newline ∷ bytes "8" ++ (newline ∷ [])))

-- The second row has no name, and gets the first one's.
stops_loaded :
    load_static_gtfs (some stops_txt) none
    ≡ some ((bytes "7", bytes "King") ∷ (bytes "8", bytes "King") ∷ [], [])
unfolding load_static_gtfs load_rows split read_stop read_route strip_quotes insert
stops_loaded = refl

abbrev row_before : Locals
row_before = record { id = bytes "7"; name = bytes "King"; ignore = bytes "1" }

short_row-keeps_name_example :
    lookup (strip_quotes (bytes "8")) (load_row read_stop (bytes "8") (row_before, [])).1
    ≡ some (strip_quotes (bytes "King"))
short_row-keeps_name_example = short_row-keeps_name (bytes "8") row_before [] (omega arith)

quoted_comma-cuts_example :
    lookup
      (strip_quotes (bytes "9"))
      (load_row read_stop (bytes "9,2,\"Bay, South\"") (row_before, [])).1
    ≡ some (quote ∷ bytes "Bay")
quoted_comma-cuts_example =
    quoted_comma-cuts (bytes "9") (bytes "2") (bytes "Bay") (bytes " South\"") row_before []
      (omega arith) (omega arith) (omega arith) (omega arith)

load_file-lines_example :
    load_file read_stop (some stops_txt) (row_before, [])
    ≡ some (load_lines read_stop (but_first (lines_from [] stops_txt)) (row_before, []))
load_file-lines_example = load_file-lines read_stop stops_txt (row_before, [])

abbrev king : Stop
king = record { id = bytes "7"; code = bytes "1"; name = bytes "King"; others = bytes "43.6" }

abbrev bay : Stop
bay = record { id = bytes "7"; code = bytes "2"; name = bytes "Bay"; others = [] }

abbrev steeles : Route
steeles = record {
  id = bytes "60";
  agency = bytes "1";
  short_name = bytes "60";
  long_name = bytes "Steeles West";
  others = bytes "3";
}

load_static_gtfs-print_example :
    (stop_names route_names : Names) × (load_static_gtfs
        (some (print_lines (bytes "h" ∷ map print_stop (king ∷ bay ∷ []))))
        (some (print_lines (bytes "r" ∷ map print_route (steeles ∷ []))))
      ≡ some (stop_names, route_names))
    × ((key : List ℕ)
        → lookup key stop_names ≡ last_name key (map stop_entry (king ∷ bay ∷ [])) none)
    × ((key : List ℕ)
        → lookup key route_names ≡ last_name key (map route_entry (steeles ∷ [])) none)
load_static_gtfs-print_example =
    load_static_gtfs-print (bytes "h") (bytes "r") (king ∷ bay ∷ []) (steeles ∷ []) (omega arith)
      (omega arith) (omega arith) (omega arith)
