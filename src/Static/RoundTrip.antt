-- ===== src/Static/RoundTrip.antt =====
-- A file that is written in the format of stops.txt or routes.txt loads back.
use telemetrix_db.Base.{
  ℕ, ◌≡◌, ◌∙◌, ap, refl, false, Option, none, some, List, [], ◌∷◌, ◌++◌, map, All, append-nil,
  append_assoc, if◌then◌else◌, ◌>>=◌, ◌==◌, arith,
}
use telemetrix_db.Static.{
  comma, newline, Locals, read_stop, read_route, Names, str_eq, lookup, load_row, load_file,
  load_static_gtfs,
}
use telemetrix_db.Static.Writer.{
  quoted, Stop, Route, IsStop, IsRoute, print_stop, print_route, print_lines, Lacks-quoted,
  print_stop-Lacks, print_route-Lacks,
}
use telemetrix_db.Static.Getline.{Lacks, strip_quotes-quoted}
use telemetrix_db.Static.Rows.{more, stop_row_lem, route_row_lem}
use telemetrix_db.Static.Files.{lines_from, load_lines, but_first, load_file-lines}

-- The name of the last row with this id.
pub last_name : List ℕ → List (List ℕ × List ℕ) → Option (List ℕ) → Option (List ℕ)
last_name key [] before = before
last_name key ((id, name) ∷ rows) before =
    last_name key rows (if str_eq id key then some name else before)

lines_from-line :
    (word line rest : List ℕ)
    → Lacks newline line
    → lines_from word (line ++ (newline ∷ rest)) ≡ (word ++ line) ∷ lines_from [] rest
unfolding lines_from
lines_from-line word [] rest h = rw append-nil
lines_from-line word (c ∷ line) rest h =
    let other : (c == newline) ≡ false = ground arith in
    rw other (
      lines_from-line (word ++ (c ∷ [])) line rest h.1
      ∙ ap (λ w. w ∷ lines_from [] rest) (append_assoc word (c ∷ []) line))

lines_from-print_lines :
    (lines : List (List ℕ)) → All (Lacks newline) lines → lines_from [] (print_lines lines) ≡ lines
unfolding print_lines lines_from
lines_from-print_lines [] h = refl
lines_from-print_lines (line ∷ rest) h =
    lines_from-line [] line (print_lines rest) h.0
    ∙ ap (λ l. line ∷ l) (lines_from-print_lines rest h.1)

-- A line that enters `name` under `id` and changes nothing else.
abbrev Enters : (List ℕ → Locals → Locals) → List ℕ → List ℕ × List ℕ → Type 0
Enters read line (id, name) =
    (l : Locals) (names : Names) (key : List ℕ)
    → lookup key (load_row read line (l, names)).1
      ≡ (if str_eq id key then some name else lookup key names)

module _ {Row : Type 0} (read : List ℕ → Locals → Locals) (print : Row → List ℕ)
    (entry : Row → List ℕ × List ℕ) where
  load_lines-lookup :
      (rows : List Row)
      → All (λ r. Enters read (print r) (entry r)) rows
      → (st : Locals × Names) (key : List ℕ)
      → lookup key (load_lines read (map print rows) st).1
        ≡ last_name key (map entry rows) (lookup key st.1)
  unfolding load_lines last_name
  load_lines-lookup [] h st key = refl
  load_lines-lookup (r ∷ rows) h st key =
      load_lines-lookup rows h.1 (load_row read (print r) st) key
      ∙ ap (last_name key (map entry rows)) (h.0 st.0 st.1 key)

  -- What a written file leaves in the dictionary.
  load_file-print :
      (header : List ℕ) (rows : List Row)
      → Lacks newline header
      → All (λ r. Lacks newline (print r)) rows
      → All (λ r. Enters read (print r) (entry r)) rows
      → (st : Locals × Names)
      → (st' : Locals × Names) × (load_file read (some (print_lines (header ∷ map print rows))) st
          ≡ some st')
        × ((key : List ℕ) → lookup key st'.1 ≡ last_name key (map entry rows) (lookup key st.1))
  load_file-print header rows hh hl he st = (
    load_lines read (map print rows) st,
    load_file-lines read (print_lines (header ∷ map print rows)) st
        ∙ ap (λ ls. some (load_lines read (but_first ls) st))
            (lines_from-print_lines (header ∷ map print rows) (hh, All-map rows hl)),
    load_lines-lookup rows he st,
  )
    where
      All-map :
          (rows : List Row)
          → All (λ r. Lacks newline (print r)) rows
          → All (Lacks newline) (map print rows)
      All-map [] h = tt
      All-map (r ∷ rows) h = (h.0, All-map rows h.1)

print_stop-Enters : (s : Stop) → IsStop s → Enters read_stop (print_stop s) (s.id, s.name)
unfolding print_stop
print_stop-Enters s h l names key =
    stop_row_lem (quoted s.id) s.code (quoted s.name) (comma ∷ s.others) key l names
      (Lacks-quoted comma s.id (omega arith) h.id.0) h.code.0
      (Lacks-quoted comma s.name (omega arith) h.name.0) (more s.others)
    ∙ rw (strip_quotes-quoted s.id, strip_quotes-quoted s.name)

print_route-Enters : (r : Route) → IsRoute r → Enters read_route (print_route r) (r.id, r.long_name)
unfolding print_route
print_route-Enters r h l names key =
    route_row_lem (quoted r.id) r.agency r.short_name (quoted r.long_name) (comma ∷ r.others) key l
      names (Lacks-quoted comma r.id (omega arith) h.id.0) h.agency.0 h.short_name.0
      (Lacks-quoted comma r.long_name (omega arith) h.long_name.0) (more r.others)
    ∙ rw (strip_quotes-quoted r.id, strip_quotes-quoted r.long_name)

abbrev pub stop_entry : Stop → List ℕ × List ℕ
stop_entry s = (s.id, s.name)

abbrev pub route_entry : Route → List ℕ × List ℕ
route_entry r = (r.id, r.long_name)

map_All {ℓ κ} :
    {A : Type 0} {P : A → Type ℓ} {Q : A → Type κ}
    → ((a : A) → P a → Q a)
    → (as_ : List A) → All P as_
    → All Q as_
map_All f [] h = tt
map_All f (a ∷ rest) h = (f a h.0, map_All f rest h.1)

-- Files written in the format of stops.txt and routes.txt load back: if no column has a comma and no
-- text a newline, the dictionaries give every id the name of its last row, without the quotes, and
-- nothing for an id that has no row.
pub load_static_gtfs-print :
    (header header' : List ℕ) (stops : List Stop) (routes : List Route)
    → Lacks newline header
    → Lacks newline header'
    → All IsStop stops
    → All IsRoute routes
    → (stop_names route_names : Names) × (load_static_gtfs
          (some (print_lines (header ∷ map print_stop stops)))
          (some (print_lines (header' ∷ map print_route routes)))
        ≡ some (stop_names, route_names))
      × ((key : List ℕ) → lookup key stop_names ≡ last_name key (map stop_entry stops) none)
      × ((key : List ℕ) → lookup key route_names ≡ last_name key (map route_entry routes) none)
unfolding load_static_gtfs lookup
load_static_gtfs-print header header' stops routes hh hh' hs hr =
    let ((l, stop_names), e, found) =
      load_file-print read_stop print_stop stop_entry header stops hh
        (map_All print_stop-Lacks stops hs) (map_All print_stop-Enters stops hs)
        (record { id = []; name = []; ignore = [] }, []) in
    let ((l', route_names), e', found') =
      load_file-print read_route print_route route_entry header' routes hh'
        (map_All print_route-Lacks routes hr) (map_All print_route-Enters routes hr) (l, []) in
    (stop_names, route_names, rw (e, ◌>>=◌, e'), found, found')
