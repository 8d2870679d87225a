-- ===== src/Base/Family.antt =====
-- Families `ℕ → A` indexed by a thread or a bucket: update at one index, and how many of the first
-- `n` members pass a test.
use native.Mathlib.Omega.{arith}
use native.Mathlib.Decide.{ℕ_discrete, dec_lt}
use mathlib.Core.Logic.{◌≢◌, ite}
use mathlib.Core.Path.{refl, ◌≡◌, subst}
use Prim.Native.Nat.{ℕ, zero, suc, ◌≤◌, ◌<◌, ◌+◌}

-- `fam[at] = new`
abbrev pub update {ℓ} : {A : Type ℓ} → (ℕ → A) → ℕ → A → ℕ → A
update fam at new i = ite (ℕ_discrete at i) new (fam i)

pub update-other {ℓ} :
    {A : Type ℓ} (fam : ℕ → A) (at : ℕ) (new : A) (i : ℕ) → at ≢ i → update fam at new i ≡ fam i
update-other fam at new i away = elim (ℕ_discrete at i) as (λ d. ite d new (fam i) ≡ fam i) [
  | yes same ↦ absurd (away same)
  | no other ↦ refl
]

-- What holds of the new member, and of the other ones, holds of every member after the update.
pub update-each {ℓ κ} :
    {A : Type ℓ} (P : ℕ → A → Type κ) (fam : ℕ → A) (i : ℕ) {a : A}
    → P i a
    → ((j : ℕ) → i ≢ j → P j (fam j))
    → (j : ℕ) → P j (update fam i a j)
update-each P fam i {a} new old j = elim (ℕ_discrete i j) as (λ d. P j (ite d a (fam j))) [
  | yes same ↦ subst (λ k. P k a) same new
  | no other ↦ old j other
]

pub update-same {ℓ} : {A : Type ℓ} (fam : ℕ → A) (i : ℕ) (a : A) → update fam i a i ≡ a
update-same fam i a = elim (ℕ_discrete i i) as (λ d. ite d a (fam i) ≡ a) [
  | yes same ↦ refl
  | no other ↦ absurd (other refl)
]

module _ {ℓ} {A : Type ℓ} (weight : A → ℕ) where
  -- The sum of the weights of the first `n` members.
  pub total : ℕ → (ℕ → A) → ℕ
  total zero fam = 0
  total (suc n) fam = total n fam + weight (fam n)

  total-update_above :
      (n : ℕ) (fam : ℕ → A) (i : ℕ) (a : A) → n ≤ i → total n (update fam i a) ≡ total n fam
  unfolding total
  total-update_above zero fam i a h = refl
  total-update_above (suc n) fam i a h = ground (arith, total-update_above n fam i a)

  pub total-update :
      (n : ℕ) (fam : ℕ → A) (i : ℕ) (a : A)
      → i < n
      → total n (update fam i a) + weight (fam i) ≡ total n fam + weight a
  unfolding total
  total-update zero fam i a h = absurd (omega arith)
  total-update (suc n) fam i a h = elim (dec_lt i n) [
    | yes below ↦ ground (arith, total-update n fam i a below)
    | no last ↦ ground (arith, total-update_above n fam i a)
  ]

  pub total-two : (f : ℕ → A) → total 2 f ≡ weight (f 0) + weight (f 1)
  unfolding total
  total-two f = omega arith

  -- One member weighs at most the sum.
  pub le-total : (n : ℕ) (fam : ℕ → A) (i : ℕ) → i < n → weight (fam i) ≤ total n fam
  unfolding total
  le-total zero fam i h = absurd (omega arith)
  le-total (suc n) fam i h = elim (dec_lt i n) [
    | yes below ↦ omega (arith, le-total n fam i below)
    | no last ↦ ground arith
  ]

  -- A positive sum has a member of positive weight.
  pub total-pos : (n : ℕ) (fam : ℕ → A) → 0 < total n fam → (i : ℕ) × (i < n) × (0 < weight (fam i))
  unfolding total
  total-pos zero fam h = absurd (omega arith)
  total-pos (suc n) fam h = elim (dec_lt 0 (weight (fam n))) [
    | yes p ↦ (n, omega arith, p)
    | no p ↦ let (i, below, q) = total-pos n fam (omega arith) in (i, omega arith, q)
  ]

  pub total-eq-zero :
      (n : ℕ) (fam : ℕ → A) → ((i : ℕ) → i < n → weight (fam i) ≡ 0) → total n fam ≡ 0
  unfolding total
  total-eq-zero zero fam h = refl
  total-eq-zero (suc n) fam h =
      omega (arith, total-eq-zero n fam (λ i below. h i (omega arith)), h n (omega arith))

  -- A change of every member.
  pub total-map_same :
      (g : A → A)
      → ((a : A) → weight (g a) ≡ weight a)
      → (n : ℕ) (fam : ℕ → A) → total n (λ i. g (fam i)) ≡ total n fam
  unfolding total
  total-map_same g h zero fam = refl
  total-map_same g h (suc n) fam = omega (arith, total-map_same g h n fam, h (fam n))

  pub total-map_grows :
      (g : A → A)
      → ((a : A) → weight a ≤ weight (g a))
      → (n : ℕ) (fam : ℕ → A) → total n fam ≤ total n (λ i. g (fam i))
  unfolding total
  total-map_grows g h zero fam = omega arith
  total-map_grows g h (suc n) fam = omega (arith, total-map_grows g h n fam, h (fam n))

  -- Two different members weigh at most the sum.
  pub add-le-total :
      (n : ℕ) (fam : ℕ → A) (zero_at : A)
      → weight zero_at ≡ 0
      → (i j : ℕ) → i < n
      → j < n
      → i ≢ j
      → weight (fam i) + weight (fam j) ≤ total n fam
  add-le-total n fam a light i j hi hj ne = omega (arith, total-update n fam i a hi, other, light)
    where
      other : weight (fam j) ≤ total n (update fam i a)
      other = ground (arith, le-total n (update fam i a) j hj)

-- The same for two families, updated at one index.
pub update-both {ℓ κ ι} :
    {A : Type ℓ} {B : Type κ} (P : ℕ → A → B → Type ι) (fam : ℕ → A) (g : ℕ → B) (i : ℕ) {a : A}
    {b : B}
    → P i a b
    → ((j : ℕ) → i ≢ j → P j (fam j) (g j))
    → (j : ℕ) → P j (update fam i a j) (update g i b j)
update-both P fam g i {a} {b} new old j =
    elim (ℕ_discrete i j) as (λ d. P j (ite d a (fam j)) (ite d b (g j))) [
      | yes same ↦ subst (λ k. P k a b) same new
      | no other ↦ old j other
    ]

-- Two families that are related member by member stay so when related values are put at one index.
pub update-related {ℓ κ ι} :
    {A : Type ℓ} {B : Type κ} (P : A → B → Type ι) (fam : ℕ → A) (g : ℕ → B) (i : ℕ) {a : A} {b : B}
    → P a b
    → ((j : ℕ) → P (fam j) (g j))
    → (j : ℕ) → P (update fam i a j) (update g i b j)
update-related P fam g i new old = update-both (λ j. P) fam g i new (λ j other. old j)
