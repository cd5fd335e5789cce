-- ===== src/Common/Members.antt =====
-- The rows of a list and those that a test, a SELECT or a condition leaves.
use mathlib.Core.Path.{◌≡◌, refl, sym, ap, ◌∙◌}
use mathlib.Core.Logic.{◌⊎◌, inl, inr}
use mathlib.Core.Bool.{Bool, true, false}
use mathlib.Core.Option.{none, some}
use mathlib.Core.List.{List, [], ◌∷◌, ◌++◌, Memᴰ}
use native.Mathlib.Omega.{arith}
use aicoo_local_agent.Common.Tests.{if◌then◌else◌, Bool-cases}
use aicoo_local_agent.Common.Tables.{select, select_first, has_row}

module _ {ℓ} {A : Type ℓ} where
  pub mem-if :
      (c : Bool) (xs ys : List A) {a : A}
      → Memᴰ a (if c then xs else ys)
      → ((c ≡ true) × Memᴰ a xs) ⊎ ((c ≡ false) × Memᴰ a ys)
  mem-if true xs ys m = inl (refl, m)
  mem-if false xs ys m = inr (refl, m)

  pub mem-cons : (x : A) (xs : List A) {a : A} → Memᴰ a (x ∷ xs) → (a ≡ x) ⊎ Memᴰ a xs
  mem-cons x xs (Memᴰ.head e) = inl e
  mem-cons x xs (Memᴰ.tail m) = inr m

  pub mem-select :
      (p : A → Bool) (xs : List A) {a : A} → Memᴰ a (select p xs) → Memᴰ a xs × (p a ≡ true)
  unfolding select
  mem-select p [] m = elim m [ ]
  mem-select p (x ∷ xs) m = elim (mem-if (p x) (x ∷ select p xs) (select p xs) m) [
    | inl (hit, n) ↦ elim (mem-cons x (select p xs) n) [
      | inl e ↦ (Memᴰ.head e, ap p e ∙ hit)
      | inr k ↦ let (j, q) = mem-select p xs k in (Memᴰ.tail j, q)
    ]
    | inr (miss, n) ↦ let (j, q) = mem-select p xs n in (Memᴰ.tail j, q)
  ]

  pub has_row_lem :
      (p : A → Bool) (xs : List A) → has_row p xs ≡ true → (a : A) × Memᴰ a xs × (p a ≡ true)
  unfolding has_row
  has_row_lem p [] h = absurd (ground arith)
  has_row_lem p (x ∷ xs) h = elim (Bool-cases (p x)) [
    | inl hit ↦ (x, Memᴰ.head refl, hit)
    | inr miss ↦ let (a, m, e) = has_row_lem p xs (ground arith) in (a, Memᴰ.tail m, e)
  ]

  pub select-mem :
      (p : A → Bool) (xs : List A) {a : A} → Memᴰ a xs → p a ≡ true → Memᴰ a (select p xs)
  unfolding select
  select-mem p [] m h = elim m [ ]
  select-mem p (x ∷ xs) (Memᴰ.head e) h =
      let hit : p x ≡ true = ap p (sym e) ∙ h in rw hit (Memᴰ.head e)
  select-mem p (x ∷ xs) (Memᴰ.tail m) h = elim (Bool-cases (p x)) [
    | inl hit ↦ rw hit (Memᴰ.tail (select-mem p xs m h))
    | inr miss ↦ rw miss (select-mem p xs m h)
  ]

  pub mem-append_last : (xs : List A) (y : A) → Memᴰ y (xs ++ y ∷ [])
  mem-append_last [] y = Memᴰ.head refl
  mem-append_last (x ∷ xs) y = Memᴰ.tail (mem-append_last xs y)

  -- A row that is found is found in a longer table too.
  pub select_first-append_some :
      (p : A → Bool) (xs ys : List A) {a : A}
      → select_first p xs ≡ some a
      → select_first p (xs ++ ys) ≡ some a
  unfolding select_first
  select_first-append_some p [] ys h = cc
  select_first-append_some p (x ∷ xs) ys {a} h = elim (Bool-cases (p x)) [
    | inl hit ↦ rw hit (rw hit at h)
    | inr miss ↦ rw miss (select_first-append_some p xs ys {a = a} (rw miss at h))
  ]

  -- A row that is not found is found where it is appended.
  pub select_first-append_none :
      (p : A → Bool) (xs : List A) (y : A)
      → select_first p xs ≡ none
      → p y ≡ true
      → select_first p (xs ++ y ∷ []) ≡ some y
  unfolding select_first
  select_first-append_none p [] y h hit = rw hit refl
  select_first-append_none p (x ∷ xs) y h hit = elim (Bool-cases (p x)) [
    | inl found ↦ cc (rw found at h)
    | inr miss ↦ rw miss (select_first-append_none p xs y (rw miss at h) hit)
  ]

  pub mem-append : (xs ys : List A) {a : A} → Memᴰ a (xs ++ ys) → Memᴰ a xs ⊎ Memᴰ a ys
  mem-append [] ys m = inr m
  mem-append (x ∷ xs) ys (Memᴰ.head e) = inl (Memᴰ.head e)
  mem-append (x ∷ xs) ys (Memᴰ.tail m) = elim (mem-append xs ys m) [
    | inl n ↦ inl (Memᴰ.tail n)
    | inr n ↦ inr n
  ]
