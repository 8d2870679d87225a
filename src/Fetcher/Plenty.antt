-- ===== src/Fetcher/Plenty.antt =====
-- A `realloc` that always finds room, and fills up with zeros: the contract of `realloc` can hold.
use telemetrix_db.Base.{
  ℕ, zero, suc, ◌≤◌, ◌≡◌, ◌≢◌, ap, refl, Option, none, some, List, [], ◌∷◌, length, take, arith,
}
use telemetrix_db.Fetcher.{Realloc}
use telemetrix_db.Fetcher.Callback.{IsRealloc}

unfoldable pub resize : ℕ → List ℕ → List ℕ
resize zero old = []
resize (suc n) [] = 0 ∷ resize n []
resize (suc n) (b ∷ old) = b ∷ resize n old

length-resize : (n : ℕ) (old : List ℕ) → length (resize n old) ≡ n
unfolding resize
length-resize zero old = refl
length-resize (suc n) [] = ap suc (length-resize n [])
length-resize (suc n) (b ∷ old) = ap suc (length-resize n old)

take-resize : (k n : ℕ) (old : List ℕ) → k ≤ length old → k ≤ n → take k (resize n old) ≡ take k old
unfolding resize
take-resize zero n old h g = refl
take-resize (suc k) zero old h g = absurd (omega arith)
take-resize (suc k) (suc n) [] h g = absurd (omega arith)
take-resize (suc k) (suc n) (b ∷ old) h g =
    ap (λ t. b ∷ t) (take-resize k n old (omega arith) (omega arith))

abbrev pub plenty : Realloc
plenty none n = some (resize n [])
plenty (some old) n = some (resize n old)

plenty-sized : (p : Option (List ℕ)) (n : ℕ) {b : List ℕ} → plenty p n ≡ some b → length b ≡ n
plenty-sized none n e = ground (arith, length-resize n [])
plenty-sized (some old) n e = ground (arith, length-resize n old)

plenty-keeps :
    (old : List ℕ) (n k : ℕ) {b : List ℕ}
    → plenty (some old) n ≡ some b
    → k ≤ length old
    → k ≤ n
    → take k b ≡ take k old
plenty-keeps old n k e h g = ground (arith, take-resize k n old)

pub plenty-IsRealloc : IsRealloc plenty
plenty-IsRealloc = record { sized = plenty-sized; keeps = plenty-keeps }

pub plenty-never_short : (p : Option (List ℕ)) (n : ℕ) → plenty p n ≢ none
plenty-never_short none n e = cc
plenty-never_short (some old) n e = cc
