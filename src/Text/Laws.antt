-- ===== src/Text/Laws.antt =====
-- What a bounded copy leaves in its array, and what is read back.
use telemetrix_db.Base.{
  ℕ, zero, suc, ◌≡◌, ◌≢◌, ◌∙◌, ◌↔◌, sym, ap, refl, true, List, [], ◌∷◌, All, length, take, set,
  arith,
}
use telemetrix_db.Text.{strncpy, copy_field, c_string, strncmp_eq}

-- No byte of a C string is NUL.
abbrev pub IsText : List ℕ → Type 0
IsText = All (λ c. c ≢ 0)

take-IsText : (n : ℕ) (s : List ℕ) → IsText s → IsText (take n s)
take-IsText zero s h = tt
take-IsText (suc n) [] h = tt
take-IsText (suc n) (c ∷ s) h = (h.0, take-IsText n s h.1)

-- What the array holds after the copy of a field: the string, cut to `n` bytes, and NULs.
padded : ℕ → List ℕ → List ℕ
padded zero s = 0 ∷ []
padded (suc n) [] = 0 ∷ padded n []
padded (suc n) (c ∷ s) = c ∷ padded n s

copy-padded :
    (n : ℕ) (dest src : List ℕ) → length dest ≡ suc n → set (strncpy dest src n) n 0 ≡ padded n src
unfolding strncpy padded
copy-padded zero [] src h = cc
copy-padded zero (d ∷ []) src h = refl
copy-padded zero (d ∷ e ∷ dest) src h = absurd (omega arith)
copy-padded (suc n) [] src h = absurd (omega arith)
copy-padded (suc n) (d ∷ dest) [] h = ap (λ t. 0 ∷ t) (copy-padded n dest [] (omega arith))
copy-padded (suc n) (d ∷ dest) (c ∷ src) h = ap (λ t. c ∷ t) (copy-padded n dest src (omega arith))

length-padded : (n : ℕ) (s : List ℕ) → length (padded n s) ≡ suc n
unfolding padded
length-padded zero s = refl
length-padded (suc n) [] = ap suc (length-padded n [])
length-padded (suc n) (c ∷ s) = ap suc (length-padded n s)

c_string-padded : (n : ℕ) (s : List ℕ) → IsText s → c_string (padded n s) ≡ take n s
unfolding padded c_string
c_string-padded zero s h = refl
c_string-padded (suc n) [] h = refl
c_string-padded (suc n) (c ∷ s) h = ground (arith, c_string-padded n s)

module _ (size : ℕ) (dest src : List ℕ) (room : length dest ≡ suc size) where
  copy_field-padded : copy_field (suc size) dest src ≡ padded size src
  unfolding copy_field
  copy_field-padded =
      ap (λ k. set (strncpy dest src k) k 0) (omega arith) ∙ copy-padded size dest src room

  pub length-copy_field : length (copy_field (suc size) dest src) ≡ suc size
  length-copy_field = ap length copy_field-padded ∙ length-padded size src

  -- The field reads back as the string, cut to one byte less than the array.
  pub c_string-copy_field : IsText src → c_string (copy_field (suc size) dest src) ≡ take size src
  c_string-copy_field h = ap c_string copy_field-padded ∙ c_string-padded size src h

-- The copy hides what the array held before.
pub copy_field-fresh :
    (size : ℕ) (dest dest' src : List ℕ)
    → length dest ≡ suc size
    → length dest' ≡ suc size
    → copy_field (suc size) dest src ≡ copy_field (suc size) dest' src
copy_field-fresh size dest dest' src room room' =
    copy_field-padded size dest src room ∙ sym (copy_field-padded size dest' src room')

-- `strncmp` finds two strings equal exactly if their first `n` bytes are the same.
pub strncmp_eq_iff : (n : ℕ) (a b : List ℕ) → (strncmp_eq a b n ≡ true) ↔ (take n a ≡ take n b)
unfolding strncmp_eq
strncmp_eq_iff zero a b = (λ _. refl, λ _. refl)
strncmp_eq_iff (suc n) [] [] = (λ _. refl, λ _. refl)
strncmp_eq_iff (suc n) [] (d ∷ b) = (λ h. cc, λ h. cc)
strncmp_eq_iff (suc n) (c ∷ a) [] = (λ h. cc, λ h. cc)
strncmp_eq_iff (suc n) (c ∷ a) (d ∷ b) =
    (λ h. ground (arith, strncmp_eq_iff n a b), λ h. ground (arith, strncmp_eq_iff n a b))
