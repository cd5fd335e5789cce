-- ===== src/Common/Tables.antt =====
-- Tables as lists of rows in the order of their insertion, and the statements that the code runs
-- on them: SELECT, UPDATE ... WHERE, SELECT MAX, ORDER BY.
use Prim.Native.Nat.{ℕ, suc, ◌≤◌, max}
use mathlib.Core.Path.{◌≡◌, refl, ap}
use mathlib.Core.Logic.{◌⊎◌, inl, inr}
use mathlib.Core.Bool.{Bool, true, false}
use mathlib.Core.Option.{Option, none, some}
use mathlib.Core.List.{List, [], ◌∷◌, ◌++◌, Memᴰ}
use native.Mathlib.Omega.{arith}
use aicoo_local_agent.Common.Tests.{if◌then◌else◌, leb, Bool-cases}

module _ {ℓ} {A : Type ℓ} where
  abbrev pub length : List A → ℕ
  length [] = 0
  length (x ∷ xs) = suc (length xs)

  -- SELECT ... WHERE p, the first row.
  unfoldable pub select_first : (A → Bool) → List A → Option A
  select_first p [] = none
  select_first p (x ∷ xs) = if p x then some x else select_first p xs

  -- SELECT ... WHERE p, every row.
  unfoldable pub select : (A → Bool) → List A → List A
  select p [] = []
  select p (x ∷ xs) = let rest = select p xs in if p x then x ∷ rest else rest

  -- Does a row satisfy p?
  unfoldable pub has_row : (A → Bool) → List A → Bool
  has_row p [] = false
  has_row p (x ∷ xs) = if p x then true else has_row p xs

  -- UPDATE ... SET f WHERE p
  unfoldable pub update_where : (A → Bool) → (A → A) → List A → List A
  update_where p f [] = []
  update_where p f (x ∷ xs) = (if p x then f x else x) ∷ update_where p f xs

  -- UPDATE ... SET f at the first row with p: a WHERE on the primary key, or a row by its index.
  unfoldable pub update_first : (A → Bool) → (A → A) → List A → List A
  update_first p f [] = []
  update_first p f (x ∷ xs) = let rest = x ∷ update_first p f xs in if p x then f x ∷ xs else rest

  -- COALESCE(MAX(key), 0) of the rows with p
  unfoldable pub max_of : (A → ℕ) → (A → Bool) → List A → ℕ
  max_of key p [] = 0
  max_of key p (x ∷ xs) = let rest = max_of key p xs in if p x then max (key x) rest else rest

  -- ORDER BY key, rows with one key in the order of their insertion.
  unfoldable pub insert_by : (A → ℕ) → A → List A → List A
  insert_by key a [] = a ∷ []
  insert_by key a (x ∷ xs) = if leb (key a) (key x) then a ∷ x ∷ xs else x ∷ insert_by key a xs

  unfoldable pub order_by : (A → ℕ) → List A → List A
  unfolding insert_by
  order_by key [] = []
  order_by key (x ∷ xs) = insert_by key x (order_by key xs)

module _ {ℓ} {A : Type ℓ} where
  pub select_first_sound :
      (p : A → Bool) (xs : List A) {a : A} → select_first p xs ≡ some a → Memᴰ a xs × (p a ≡ true)
  unfolding select_first
  select_first_sound p [] h = cc
  select_first_sound p (x ∷ xs) {a} h = elim (Bool-cases (p x)) [
    | inl hit ↦ (Memᴰ.head (ground arith), ground arith)
    | inr miss ↦ let (m, q) = select_first_sound p xs {a = a} (ground arith) in (Memᴰ.tail m, q)
  ]

  pub select_first-none :
      (p : A → Bool) (xs : List A) {a : A} → select_first p xs ≡ none → Memᴰ a xs → p a ≡ false
  unfolding select_first
  select_first-none p [] h m = elim m [ ]
  select_first-none p (x ∷ xs) {a} h (Memᴰ.head e) = ground arith
  select_first-none p (x ∷ xs) {a} h (Memᴰ.tail m) =
      ground (arith, λ (k : select_first p xs ≡ none). select_first-none p xs {a = a} k m)

  -- A row of an updated table comes from a row of the table.
  pub mem-update_where :
      (p : A → Bool) (f : A → A) (xs : List A) {b : A}
      → Memᴰ b (update_where p f xs)
      → (a : A) × Memᴰ a xs × (b ≡ (if p a then f a else a))
  unfolding update_where
  mem-update_where p f [] m = elim m [ ]
  mem-update_where p f (x ∷ xs) (Memᴰ.head e) = (x, Memᴰ.head refl, e)
  mem-update_where p f (x ∷ xs) (Memᴰ.tail m) =
      let (a, n, e) = mem-update_where p f xs m in (a, Memᴰ.tail n, e)

  pub has_row-mem :
      (p : A → Bool) (xs : List A) {a : A} → Memᴰ a xs → p a ≡ true → has_row p xs ≡ true
  unfolding has_row
  has_row-mem p [] m h = elim m [ ]
  has_row-mem p (x ∷ xs) (Memᴰ.head e) h = ground arith
  has_row-mem p (x ∷ xs) {a} (Memᴰ.tail m) h = ground (arith, has_row-mem p xs {a = a} m h)

  pub le-max_of :
      (key : A → ℕ) (p : A → Bool) (xs : List A) {a : A}
      → Memᴰ a xs
      → p a ≡ true
      → key a ≤ max_of key p xs
  unfolding max_of
  le-max_of key p [] m h = elim m [ ]
  le-max_of key p (x ∷ xs) (Memᴰ.head e) h = ground (arith, ap key e, ap p e)
  le-max_of key p (x ∷ xs) {a} (Memᴰ.tail m) h = ground (arith, le-max_of key p xs {a = a} m h)

  pub mem-append-cases : (xs : List A) {y b : A} → Memᴰ b (xs ++ y ∷ []) → Memᴰ b xs ⊎ (b ≡ y)
  mem-append-cases [] (Memᴰ.head e) = inr e
  mem-append-cases [] (Memᴰ.tail m) = elim m [ ]
  mem-append-cases (x ∷ xs) (Memᴰ.head e) = inl (Memᴰ.head e)
  mem-append-cases (x ∷ xs) (Memᴰ.tail m) = elim (mem-append-cases xs m) [
    | inl n ↦ inl (Memᴰ.tail n)
    | inr e ↦ inr e
  ]

module _ {ℓ} {A : Type ℓ} where
  -- An update that leaves what a SELECT tests alone is seen by that SELECT.
  pub select_first-update_where :
      (q p : A → Bool) (f : A → A)
      → ((a : A) → q (f a) ≡ q a)
      → (xs : List A) (a : A) → select_first q xs ≡ some a
      → select_first q (update_where p f xs) ≡ some (if p a then f a else a)
  unfolding select_first update_where
  select_first-update_where q p f keep [] a h = cc
  select_first-update_where q p f keep (x ∷ xs) a h = ground (
    arith,
    keep x,
    λ (k : select_first q xs ≡ some a). select_first-update_where q p f keep xs a k,
  )

  -- After an update every row that still has p is one that f gave it.
  pub All-update_where :
      (p : A → Bool) (f : A → A) (xs : List A) {b : A}
      → Memᴰ b (update_where p f xs)
      → ((a : A) → Memᴰ a xs → p a ≡ true → p (f a) ≡ false)
      → p b ≡ false
  All-update_where p f xs {b} m h =
      let (a, n, e) = mem-update_where p f xs m in
      elim (Bool-cases (p a)) [
        | inl hit ↦ ground (arith, ap p e, h a n hit)
        | inr miss ↦ ground (arith, ap p e)
      ]
