-- ===== src/Static.antt =====
-- src/main.cpp, `load_static_gtfs`: the stop and route names read from two files of comma-separated
-- values. A `std::string` is the list of its bytes.
pub mod Getline
pub mod Rows
pub mod Writer
pub mod RoundTrip
pub mod Files
mod Tests
use telemetrix_db.Base.{
  ℕ, zero, suc, ◌-◌, Bool, true, false, ◌&&◌, Option, none, some, List, [], ◌∷◌, ◌==◌, leb, length,
  take, if◌then◌else◌, ◌>>=◌,
}

abbrev pub comma : ℕ
comma = b','

abbrev pub newline : ℕ
newline = 10

abbrev pub quote : ℕ
quote = 34

-- `str.front()` and `str.back()`, on a string that is not empty.
abbrev pub front : List ℕ → ℕ
front [] = 0
front (c ∷ cs) = c

abbrev pub back : List ℕ → ℕ
back [] = 0
back (c ∷ []) = c
back (c ∷ d ∷ cs) = back (d ∷ cs)

abbrev pub substr_from : List ℕ → List ℕ
substr_from [] = []
substr_from (c ∷ cs) = cs

-- The lambda `strip_quotes`.
unfoldable pub strip_quotes : List ℕ → List ℕ
strip_quotes str =
    if leb 2 (length str) && (front str == quote) && (back str == quote)
    then take (length str - 2) (substr_from str)
    else str

-- An input stream: the bytes ahead, and whether no operation has met the end of them.
pub record Stream : Type 0 where
  pub rest : List ℕ
  pub good : Bool

abbrev pub stream_of : List ℕ → Stream
stream_of content = record { rest = content; good = true }

-- The bytes before the first delimiter, and those behind it if there is one.
unfoldable pub split : ℕ → List ℕ → List ℕ × Option (List ℕ)
split delim [] = ([], none)
split delim (c ∷ cs) =
    let r = split delim cs in if c == delim then ([], some cs) else (c ∷ r.0, r.1)

abbrev pub is_empty : List ℕ → Bool
is_empty [] = true
is_empty (c ∷ cs) = false

-- `getline` from a good stream: at the end of the bytes the stream stops being good, and the call
-- fails if it extracted nothing.
unfoldable pub extract : List ℕ × Option (List ℕ) → List ℕ × Stream × Bool
extract (word, some after) = (word, record { rest = after; good = true }, true)
extract (word, none) =
    (word, record { rest = []; good = false }, if is_empty word then false else true)

-- `std::getline(stream, str, delim)`: the string, the stream and the success after it. A stream
-- that is not good leaves the string alone.
unfoldable pub getline : Stream → List ℕ → ℕ → List ℕ × Stream × Bool
unfolding extract
getline s str delim = if s.good then extract (split delim s.rest) else (str, s, false)

-- The local strings of `load_static_gtfs`, which live as long as the call.
pub record Locals : Type 0 where
  pub id : List ℕ
  pub name : List ℕ
  pub ignore : List ℕ

-- The columns of a row of stops.txt, up to the quotes: id, stop_code, name.
unfoldable pub read_stop : List ℕ → Locals → Locals
unfolding getline
read_stop line l =
    let (id, ss, _) = getline (stream_of line) l.id comma in
    let (ignore, ss', _) = getline ss l.ignore comma in
    let (name, ss'', _) = getline ss' l.name comma in
    record { id = id; name = name; ignore = ignore }

-- Those of a row of routes.txt: id, agency_id, route_short_name, route_long_name.
unfoldable pub read_route : List ℕ → Locals → Locals
unfolding getline
read_route line l =
    let (id, ss, _) = getline (stream_of line) l.id comma in
    let (ignore, ss', _) = getline ss l.ignore comma in
    let (ignore', ss'', _) = getline ss' ignore comma in
    let (name, ss''', _) = getline ss'' l.name comma in
    record { id = id; name = name; ignore = ignore' }

abbrev pub strip_columns : Locals → Locals
strip_columns l = record l { id = strip_quotes l.id; name = strip_quotes l.name }

-- `std::unordered_map<std::string, std::string>`, by its entries.
abbrev pub Names : Type 0
Names = List (List ℕ × List ℕ)

unfoldable pub str_eq : List ℕ → List ℕ → Bool
str_eq [] [] = true
str_eq [] (d ∷ b) = false
str_eq (c ∷ a) [] = false
str_eq (c ∷ a) (d ∷ b) = (c == d) && str_eq a b

unfoldable pub lookup : List ℕ → Names → Option (List ℕ)
unfolding str_eq
lookup k [] = none
lookup k ((j, v) ∷ m) = if str_eq j k then some v else lookup k m

-- `names[k] = v`
unfoldable pub insert : List ℕ → List ℕ → Names → Names
unfolding str_eq
insert k v [] = (k, v) ∷ []
insert k v ((j, w) ∷ m) = if str_eq j k then (j, v) ∷ m else (j, w) ∷ insert k v m

-- A round of a loading loop, on a line.
abbrev pub load_row : (List ℕ → Locals → Locals) → List ℕ → Locals × Names → Locals × Names
load_row read line (l, names) =
    let l' = strip_columns (read line l) in (l', insert l'.id l'.name names)

-- `while (std::getline(file, line))`, with fuel; `none` means that the fuel ran out.
unfoldable pub load_rows :
    (List ℕ → Locals → Locals) → ℕ → Stream → Locals × Names → Option (Locals × Names)
unfolding getline
load_rows read zero file st = none
load_rows read (suc fuel) file st =
    let (line, file', ok) = getline file [] newline in
    let rest = load_rows read fuel file' (load_row read line st) in if ok then rest else some st

-- A file that is open, or could not be opened: one line is skipped, and the others loaded. The fuel
-- is more than there can be lines.
unfoldable pub load_file :
    (List ℕ → Locals → Locals) → Option (List ℕ) → Locals × Names → Option (Locals × Names)
unfolding getline load_rows
load_file read none st = some st
load_file read (some content) st =
    let (header, file, ok) = getline (stream_of content) [] newline in
    load_rows read (suc (suc (length content))) file st

-- `load_static_gtfs`, on the two files: the stop names and the route names.
unfoldable pub load_static_gtfs : Option (List ℕ) → Option (List ℕ) → Option (Names × Names)
unfolding load_file
load_static_gtfs stops routes = do
  (l, stop_names) ← load_file read_stop stops (record { id = []; name = []; ignore = [] }, [])
  (l', route_names) ← load_file read_route routes (l, [])
  some (stop_names, route_names)
