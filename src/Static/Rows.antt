-- ===== src/Static/Rows.antt =====
-- What one row of a file puts into the dictionaries.
use telemetrix_db.Base.{
  ℕ, ◌≡◌, ◌≢◌, ◌∙◌, ap, refl, some, List, [], ◌∷◌, ◌++◌, append-nil, inr, if◌then◌else◌,
}
use telemetrix_db.Static.{
  comma, quote, back, strip_quotes, stream_of, extract, getline, Locals, read_stop, read_route,
  lookup, insert, load_row, str_eq, Names,
}
use telemetrix_db.Static.Getline.{
  Lacks, split-delim, split-end, getline-delim, lookup-insert, str_eq_iff, strip_quotes-plain,
}

-- What may stand behind a column: the end of the line, or a comma and more.
pub data Tail : List ℕ → Type 0 where
  end : Tail []
  more : (rest : List ℕ) → Tail (comma ∷ rest)

getline-Tail :
    (word tail str : List ℕ)
    → Lacks comma word
    → Tail tail
    → (getline (stream_of (word ++ tail)) str comma).0 ≡ word
unfolding getline
getline-Tail word tail str h end = rw (append-nil, split-end comma word h)
getline-Tail word tail str h (more rest) = ap (λ r. (extract r).0) (split-delim comma word rest h)

-- A row of stops.txt with an id, a code and a name gives these columns, whatever the rows before it
-- held.
pub read_stop_lem :
    (id code name tail : List ℕ) (l : Locals)
    → Lacks comma id
    → Lacks comma code
    → Lacks comma name
    → Tail tail
    → read_stop (id ++ (comma ∷ code ++ (comma ∷ name ++ tail))) l
      ≡ record { id = id; name = name; ignore = code }
unfolding read_stop
read_stop_lem id code name tail l hi hc hn t = rw (
  getline-delim comma id (code ++ (comma ∷ name ++ tail)) l.id hi,
  getline-delim comma code (name ++ tail) l.ignore hc,
  getline-Tail name tail l.name hn t,
)

-- A row of routes.txt gives its first and its fourth column.
pub read_route_lem :
    (id agency short long tail : List ℕ) (l : Locals)
    → Lacks comma id
    → Lacks comma agency
    → Lacks comma short
    → Lacks comma long
    → Tail tail
    → read_route (id ++ (comma ∷ agency ++ (comma ∷ short ++ (comma ∷ long ++ tail)))) l
      ≡ record { id = id; name = long; ignore = short }
unfolding read_route
read_route_lem id agency short long tail l hi ha hs hl t = rw (
  getline-delim comma id (agency ++ (comma ∷ short ++ (comma ∷ long ++ tail))) l.id hi,
  getline-delim comma agency (short ++ (comma ∷ long ++ tail)) l.ignore ha,
  getline-delim comma short (long ++ tail) agency hs,
  getline-Tail long tail l.name hl t,
)

lookup_here : (k v : List ℕ) (names : Names) → lookup k (insert k v names) ≡ some v
lookup_here k v names =
    lookup-insert k k v names
    ∙ ap (λ b. if b then some v else lookup k names) ((str_eq_iff k k).1 refl)

-- A complete row of stops.txt enters its name under its id, both without their quotes, and leaves
-- every other entry alone, whatever the rows before it held.
pub stop_row_lem :
    (id code name tail key : List ℕ) (l : Locals) (names : Names)
    → Lacks comma id
    → Lacks comma code
    → Lacks comma name
    → Tail tail
    → lookup key (load_row read_stop (id ++ (comma ∷ code ++ (comma ∷ name ++ tail))) (l, names)).1
      ≡ (if str_eq (strip_quotes id) key then some (strip_quotes name) else lookup key names)
stop_row_lem id code name tail key l names hi hc hn t =
    rw (read_stop_lem id code name tail l hi hc hn t)
      (lookup-insert (strip_quotes id) key (strip_quotes name) names)

-- A complete row of routes.txt enters its long name, the fourth column, under its id, both without
-- their quotes, and leaves every other entry alone, whatever the rows before it held.
pub route_row_lem :
    (id agency short long tail key : List ℕ) (l : Locals) (names : Names)
    → Lacks comma id
    → Lacks comma agency
    → Lacks comma short
    → Lacks comma long
    → Tail tail
    → lookup key
        (load_row read_route
          (id ++ (comma ∷ agency ++ (comma ∷ short ++ (comma ∷ long ++ tail))))
          (l, names)).1
      ≡ (if str_eq (strip_quotes id) key then some (strip_quotes long) else lookup key names)
route_row_lem id agency short long tail key l names hi ha hs hl t =
    rw (read_route_lem id agency short long tail l hi ha hs hl t)
      (lookup-insert (strip_quotes id) key (strip_quotes long) names)

read_stop-short :
    (line : List ℕ) (l : Locals)
    → Lacks comma line
    → read_stop line l ≡ record { id = line; name = l.name; ignore = l.ignore }
unfolding read_stop getline
read_stop-short line l h = rw (split-end comma line h)

-- A row of stops.txt with no comma enters the name left by the row before it under its text: the
-- name column, which it lacks, is not cleared.
pub short_row-keeps_name :
    (line : List ℕ) (l : Locals) (names : Names)
    → Lacks comma line
    → lookup (strip_quotes line) (load_row read_stop line (l, names)).1 ≡ some (strip_quotes l.name)
short_row-keeps_name line l names h =
    rw (read_stop-short line l h) (lookup_here (strip_quotes line) (strip_quotes l.name) names)

-- A quoted name with a comma in it is entered as its part before the comma, with its opening
-- quote, if that part does not itself end in a quote.
pub quoted_comma-cuts :
    (id code before after : List ℕ) (l : Locals) (names : Names)
    → Lacks comma id
    → Lacks comma code
    → Lacks comma before
    → back (quote ∷ before) ≢ quote
    → lookup
        (strip_quotes id)
        (load_row read_stop
          (id ++ (comma ∷ code ++ (comma ∷ (quote ∷ before) ++ (comma ∷ after))))
          (l, names)).1
      ≡ some (quote ∷ before)
quoted_comma-cuts id code before after l names hi hc hb ne =
    rw (read_stop_lem id code (quote ∷ before) (comma ∷ after) l hi hc ((λ h. cc), hb) (more after))
      (lookup_here (strip_quotes id) (strip_quotes (quote ∷ before)) names
        ∙ ap some (strip_quotes-plain (quote ∷ before) (inr ne)))
