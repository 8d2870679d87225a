-- ===== src/Static/Getline.antt =====
-- What `getline` takes from a stream, and what it does to its string at the end.
use telemetrix_db.Base.{
  ℕ, ◌≡◌, ◌≢◌, ap, refl, true, false, none, some, List, [], ◌∷◌, ◌++◌, All, length, take,
  if◌then◌else◌, ◌⊎◌, ◌↔◌, length-append, arith,
}
use telemetrix_db.Static.{
  quote, front, back, strip_quotes, stream_of, split, extract, getline, str_eq, Names, lookup,
  insert,
}

-- The delimiter is not among the bytes.
abbrev pub Lacks : ℕ → List ℕ → Type 0
Lacks delim = All (λ c. c ≢ delim)

pub split-delim :
    (delim : ℕ) (word rest : List ℕ)
    → Lacks delim word
    → split delim (word ++ (delim ∷ rest)) ≡ (word, some rest)
unfolding split
split-delim delim [] rest h = ground arith
split-delim delim (c ∷ word) rest h = ground (arith, split-delim delim word rest h.1)

pub split-end : (delim : ℕ) (word : List ℕ) → Lacks delim word → split delim word ≡ (word, none)
unfolding split
split-end delim [] h = refl
split-end delim (c ∷ word) h = ground (arith, split-end delim word h.1)

-- A word with its delimiter is taken, and the stream goes on behind it.
pub getline-delim :
    (delim : ℕ) (word rest str : List ℕ)
    → Lacks delim word
    → getline (stream_of (word ++ (delim ∷ rest))) str delim ≡ (word, stream_of rest, true)
unfolding getline
getline-delim delim word rest str h = ap extract (split-delim delim word rest h)

-- The last word is taken too; behind it the stream is spent.
pub getline-end :
    (delim : ℕ) (word str : List ℕ)
    → Lacks delim word
    → let (word', after, ok) = getline (stream_of word) str delim in
      (word' ≡ word) × (after ≡ record { rest = []; good = false })
unfolding getline
getline-end delim word str h = rw (split-end delim word h) (refl, refl)

-- A spent stream leaves the string as it was.
pub getline-spent :
    (delim : ℕ) (rest str : List ℕ)
    → getline (record { rest = rest; good = false }) str delim
      ≡ (str, record { rest = rest; good = false }, false)
unfolding getline
getline-spent delim rest str = refl

back-append : (s : List ℕ) (c : ℕ) → back (s ++ (c ∷ [])) ≡ c
back-append [] c = refl
back-append (d ∷ []) c = refl
back-append (d ∷ e ∷ s) c = back-append (e ∷ s) c

take-append : (s t : List ℕ) → take (length s) (s ++ t) ≡ s
take-append [] t = refl
take-append (c ∷ s) t = ap (λ u. c ∷ u) (take-append s t)

back-cons : (c d : ℕ) (s : List ℕ) → back (c ∷ s ++ (d ∷ [])) ≡ d
back-cons c d s = back-append (c ∷ s) d

-- A text between quotes is stripped of this pair, and of nothing else.
pub strip_quotes-quoted : (s : List ℕ) → strip_quotes ((quote ∷ s) ++ (quote ∷ [])) ≡ s
unfolding strip_quotes
strip_quotes-quoted s =
    ground
      (arith, back-cons quote quote s, length-append s (quote ∷ []), take-append s (quote ∷ []))

-- A text that does not begin and end with a quote is left alone.
pub strip_quotes-plain : (s : List ℕ) → (front s ≢ quote) ⊎ (back s ≢ quote) → strip_quotes s ≡ s
unfolding strip_quotes
strip_quotes-plain s h = ground arith

pub str_eq_iff : (a b : List ℕ) → (str_eq a b ≡ true) ↔ (a ≡ b)
unfolding str_eq
str_eq_iff [] [] = (λ _. refl, λ _. refl)
str_eq_iff [] (d ∷ b) = (λ h. cc, λ h. cc)
str_eq_iff (c ∷ a) [] = (λ h. cc, λ h. cc)
str_eq_iff (c ∷ a) (d ∷ b) =
    (λ h. ground (arith, str_eq_iff a b), λ h. ground (arith, str_eq_iff a b))

-- A map entry that is written is found, and every other one stays.
pub lookup-insert :
    (k j v : List ℕ) (m : Names)
    → lookup j (insert k v m) ≡ (if str_eq k j then some v else lookup j m)
unfolding lookup insert
lookup-insert k j v [] = refl
lookup-insert k j v ((i, w) ∷ m) =
    ground (arith, str_eq_iff k j, str_eq_iff i k, str_eq_iff i j, lookup-insert k j v m)
