-- ===== src/Static/Writer.antt =====
-- A writer for files in the format of stops.txt and routes.txt.
use telemetrix_db.Base.{ℕ, ◌≢◌, List, [], ◌∷◌, ◌++◌, arith}
use telemetrix_db.Static.{comma, newline, quote}
use telemetrix_db.Static.Getline.{Lacks}

-- A text in quotes, the rows of the two files, and a file of lines below a header.
unfoldable pub quoted : List ℕ → List ℕ
quoted s = (quote ∷ s) ++ (quote ∷ [])

-- A row of stops.txt, with the columns behind the name as one text.
pub record Stop : Type 0 where
  pub id : List ℕ
  pub code : List ℕ
  pub name : List ℕ
  pub others : List ℕ

pub record Route : Type 0 where
  pub id : List ℕ
  pub agency : List ℕ
  pub short_name : List ℕ
  pub long_name : List ℕ
  pub others : List ℕ

unfoldable pub print_stop : Stop → List ℕ
unfolding quoted
print_stop s = quoted s.id ++ (comma ∷ s.code ++ (comma ∷ quoted s.name ++ (comma ∷ s.others)))

unfoldable pub print_route : Route → List ℕ
unfolding quoted
print_route r =
    quoted r.id
    ++ (comma ∷ r.agency
        ++ (comma ∷ r.short_name ++ (comma ∷ quoted r.long_name ++ (comma ∷ r.others))))

unfoldable pub print_lines : List (List ℕ) → List ℕ
print_lines [] = []
print_lines (line ∷ rest) = line ++ (newline ∷ print_lines rest)

-- No column has a comma, and no text a newline.
pub record IsStop (s : Stop) : Type 0 where
  pub id : Lacks comma s.id × Lacks newline s.id
  pub code : Lacks comma s.code × Lacks newline s.code
  pub name : Lacks comma s.name × Lacks newline s.name
  pub others : Lacks newline s.others

pub record IsRoute (r : Route) : Type 0 where
  pub id : Lacks comma r.id × Lacks newline r.id
  pub agency : Lacks comma r.agency × Lacks newline r.agency
  pub short_name : Lacks comma r.short_name × Lacks newline r.short_name
  pub long_name : Lacks comma r.long_name × Lacks newline r.long_name
  pub others : Lacks newline r.others

Lacks-append : (c : ℕ) (s t : List ℕ) → Lacks c s → Lacks c t → Lacks c (s ++ t)
Lacks-append c [] t hs ht = ht
Lacks-append c (d ∷ s) t hs ht = (hs.0, Lacks-append c s t hs.1 ht)

pub Lacks-quoted : (c : ℕ) (s : List ℕ) → quote ≢ c → Lacks c s → Lacks c (quoted s)
unfolding quoted
Lacks-quoted c s ne h = (ne, Lacks-append c s (quote ∷ []) h (ne, tt))

pub print_stop-Lacks : (s : Stop) → IsStop s → Lacks newline (print_stop s)
unfolding print_stop
print_stop-Lacks s h =
    Lacks-append newline (quoted s.id) _ (Lacks-quoted newline s.id (omega arith) h.id.1) (
      omega arith,
      Lacks-append newline s.code _ h.code.1 (
        omega arith,
        Lacks-append newline (quoted s.name) _ (Lacks-quoted newline s.name (omega arith) h.name.1)
            (omega arith, h.others),
      ),
    )

pub print_route-Lacks : (r : Route) → IsRoute r → Lacks newline (print_route r)
unfolding print_route
print_route-Lacks r h =
    Lacks-append newline (quoted r.id) _ (Lacks-quoted newline r.id (omega arith) h.id.1) (
      omega arith,
      Lacks-append newline r.agency _ h.agency.1 (
        omega arith,
        Lacks-append newline r.short_name _ h.short_name.1 (
          omega arith,
          Lacks-append newline (quoted r.long_name) _
              (Lacks-quoted newline r.long_name (omega arith) h.long_name.1)
              (omega arith, h.others),
        ),
      ),
    )
