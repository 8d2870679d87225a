-- ===== src/Static/Files.antt =====
-- A file is loaded line by line, to its end.
use telemetrix_db.Base.{
  ℕ, zero, suc, ◌<◌, ◌≤◌, ◌≡◌, refl, true, false, Option, none, some, List, [], ◌∷◌, ◌++◌, length,
  arith, if◌then◌else◌, ◌==◌, Bool-cases, inl, inr, append-nil, append_assoc,
}
use telemetrix_db.Static.{
  newline, stream_of, split, is_empty, Locals, Names, load_row, load_rows, load_file,
}

-- The lines of a text: the bytes between newlines, and what stands behind the last one if that is
-- not empty.
unfoldable pub lines_from : List ℕ → List ℕ → List (List ℕ)
lines_from word [] = if is_empty word then [] else word ∷ []
lines_from word (c ∷ cs) =
    if c == newline then word ∷ lines_from [] cs else lines_from (word ++ (c ∷ [])) cs

-- What the lines mean, row after row.
unfoldable pub load_lines :
    (List ℕ → Locals → Locals) → List (List ℕ) → Locals × Names → Locals × Names
load_lines read [] st = st
load_lines read (line ∷ rest) st = load_lines read rest (load_row read line st)

abbrev pub but_first : List (List ℕ) → List (List ℕ)
but_first [] = []
but_first (line ∷ rest) = rest

-- How the lines go on from a word and the result of a split.
abbrev Continues : List ℕ → List ℕ → List ℕ × Option (List ℕ) → Type 0
Continues word cs (w, none) =
    (lines_from word cs ≡ (if is_empty (word ++ w) then [] else (word ++ w) ∷ []))
    × (length w ≤ length cs)
Continues word cs (w, some after) =
    (lines_from word cs ≡ (word ++ w) ∷ lines_from [] after) × (length after < length cs)

Continues-cons :
    (word : List ℕ) (c : ℕ) (cs : List ℕ) (r : List ℕ × Option (List ℕ))
    → (c == newline) ≡ false
    → Continues (word ++ (c ∷ [])) cs r
    → Continues word (c ∷ cs) (c ∷ r.0, r.1)
unfolding lines_from
Continues-cons word c cs (w, none) e h =
    rw (e, ← append_assoc word (c ∷ []) w) (h.0, omega (arith, h.1))
Continues-cons word c cs (w, some after) e h =
    rw (e, ← append_assoc word (c ∷ []) w) (h.0, omega (arith, h.1))

lines_from-newline :
    (word : List ℕ) (c : ℕ) (cs : List ℕ)
    → (c == newline) ≡ true
    → lines_from word (c ∷ cs) ≡ word ∷ lines_from [] cs
unfolding lines_from
lines_from-newline word c cs e = rw e

split-Continues : (word cs : List ℕ) → Continues word cs (split newline cs)
unfolding split lines_from
split-Continues word [] = rw append-nil (refl, omega arith)
split-Continues word (c ∷ cs) = elim (Bool-cases (c == newline)) [
  | inl e ↦ rw (e, append-nil) (lines_from-newline word c cs e, omega arith)
  | inr e ↦
      rw (e, split)
        (Continues-cons word c cs (split newline cs) e (split-Continues (word ++ (c ∷ [])) cs))
]

module _ (read : List ℕ → Locals → Locals) where
  load_rows-spent :
      (fuel : ℕ) (rest : List ℕ) (st : Locals × Names)
      → 0 < fuel
      → load_rows read fuel (record { rest = rest; good = false }) st ≡ some st
  unfolding load_rows
  load_rows-spent zero rest st h = elim h [ ]
  load_rows-spent (suc fuel) rest st h = refl

  load_rows-lines :
      (fuel : ℕ) (rest : List ℕ) (st : Locals × Names)
      → length rest < fuel
      → load_rows read fuel (stream_of rest) st ≡ some (load_lines read (lines_from [] rest) st)
  unfolding load_rows load_lines
  load_rows-lines zero rest st h = absurd (omega arith)
  load_rows-lines (suc fuel) rest st h =
      go (split newline rest) refl (split-Continues [] rest) (load_rows-lines fuel)
    where
      go :
          (r : List ℕ × Option (List ℕ))
          → split newline rest ≡ r
          → Continues [] rest r
          → ((rest : List ℕ) (st : Locals × Names)
              → length rest < fuel
              → load_rows read fuel (stream_of rest) st
                ≡ some (load_lines read (lines_from [] rest) st))
          → load_rows read (suc fuel) (stream_of rest) st
            ≡ some (load_lines read (lines_from [] rest) st)
      go ([], none) e k ih = rw (e, k.0)
      go (c ∷ w, none) e k ih = rw (e, k.0) (load_rows-spent fuel [] _ (omega (arith, k.1)))
      go (w, some after) e k ih = rw (e, k.0) (ih after _ (omega (arith, k.1)))

  -- A file that opens is read to its end, within the fuel: what is loaded is what its lines mean,
  -- one row after the other, but for the first line, which is skipped.
  pub load_file-lines :
      (content : List ℕ) (st : Locals × Names)
      → load_file read (some content) st
        ≡ some (load_lines read (but_first (lines_from [] content)) st)
  unfolding load_file load_lines
  load_file-lines content st = go (split newline content) refl (split-Continues [] content)
    where
      go :
          (r : List ℕ × Option (List ℕ))
          → split newline content ≡ r
          → Continues [] content r
          → load_file read (some content) st
            ≡ some (load_lines read (but_first (lines_from [] content)) st)
      go ([], none) e k = rw (e, k.0)
      go (c ∷ w, none) e k = rw (e, k.0)
      go (w, some after) e k =
          rw (e, k.0) (load_rows-lines (suc (suc (length content))) after st (omega (arith, k.1)))
