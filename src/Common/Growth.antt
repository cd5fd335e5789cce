-- ===== src/Common/Growth.antt =====
-- How a table changes over time: each row moves along a relation, and rows are only appended.
use Prim.Native.Nat.{ℕ}
use mathlib.Core.Path.{◌≡◌, refl, sym, subst}
use mathlib.Core.Logic.{inl, inr}
use mathlib.Core.Bool.{Bool, true}
use mathlib.Core.Option.{some}
use mathlib.Core.List.{List, [], ◌∷◌, ◌++◌, Memᴰ}
use native.Mathlib.Omega.{arith}
use aicoo_local_agent.Common.Tests.{if◌then◌else◌, ◌==◌, Bool-cases}
use aicoo_local_agent.Common.Tables.{update_where, update_first, select_first}

pub data Evolves {ℓ κ} {A : Type ℓ} (R : A → A → Type κ) : List A → List A → Type (ℓ ⊔ κ) where
  done : (ys : List A) → Evolves R [] ys
  step : {x y : A} {xs ys : List A} → R x y → Evolves R xs ys → Evolves R (x ∷ xs) (y ∷ ys)

module _ {ℓ κ} {A : Type ℓ} (R : A → A → Type κ) where
  pub Evolves-refl : ((a : A) → R a a) → (xs : List A) → Evolves R xs xs
  Evolves-refl r [] = Evolves.done []
  Evolves-refl r (x ∷ xs) = Evolves.step (r x) (Evolves-refl r xs)

  pub Evolves-trans :
      ((a b c : A) → R a b → R b c → R a c)
      → {xs ys zs : List A} → Evolves R xs ys
      → Evolves R ys zs
      → Evolves R xs zs
  Evolves-trans t {zs = zs} (done ys) g = Evolves.done zs
  Evolves-trans t (step {x} {y} r f) (step {y = z} s g) =
      Evolves.step (t x y z r s) (Evolves-trans t f g)

  pub Evolves-append : ((a : A) → R a a) → (xs ys : List A) → Evolves R xs (xs ++ ys)
  Evolves-append r [] ys = Evolves.done ys
  Evolves-append r (x ∷ xs) ys = Evolves.step (r x) (Evolves-append r xs ys)

  pub Evolves-update_where :
      ((a : A) → R a a)
      → (p : A → Bool) (f : A → A) → ((a : A) → p a ≡ true → R a (f a))
      → (xs : List A) → Evolves R xs (update_where p f xs)
  unfolding update_where
  Evolves-update_where r p f h [] = Evolves.done []
  Evolves-update_where r p f h (x ∷ xs) = Evolves.step here (Evolves-update_where r p f h xs)
    where
      here : R x (if p x then f x else x)
      here = elim (Bool-cases (p x)) [ inl e ↦ rw e (h x e) | inr e ↦ rw e (r x) ]

  pub Evolves-update_first :
      ((a : A) → R a a)
      → (p : A → Bool) (f : A → A) (xs : List A) (a : A) → select_first p xs ≡ some a
      → R a (f a)
      → Evolves R xs (update_first p f xs)
  unfolding update_first select_first
  Evolves-update_first r p f [] a found h = cc
  Evolves-update_first r p f (x ∷ xs) a found h = elim (Bool-cases (p x)) [
    | inl hit ↦ rw hit (Evolves.step (moved (rw hit at found)) (Evolves-refl r xs))
    | inr miss ↦ rw miss (Evolves.step (r x) (Evolves-update_first r p f xs a (rw miss at found) h))
  ]
    where
      moved : some x ≡ some a → R x (f x)
      moved e = let same : a ≡ x = cc in subst (λ y. R y (f y)) same h

  -- The row that a key finds is found by that key later too, moved along the relation.
  pub Evolves-select_first :
      (key : A → ℕ)
      → ((a b : A) → R a b → key b ≡ key a)
      → (k : ℕ) (xs ys : List A) (a : A) → Evolves R xs ys
      → select_first (λ r. key r == k) xs ≡ some a
      → (b : A) × (select_first (λ r. key r == k) ys ≡ some b) × R a b
  unfolding select_first
  Evolves-select_first key same k [] ys a (done _) h = cc
  Evolves-select_first key same k (x ∷ xs) [] a f h = elim f [ ]
  Evolves-select_first key same k (x ∷ xs) (y ∷ ys) a (step r f) h =
      elim (Bool-cases (key x == k)) [
        | inl hit ↦ (y, ground (arith, same x y r), moved (ground arith))
        | inr miss ↦
            let (b, e, s) = Evolves-select_first key same k xs ys a f (ground arith) in
            (b, ground (arith, same x y r), s)
      ]
    where
      moved : x ≡ a → R a y
      moved e = rw (← e) r

-- A property of every row of a table.
abbrev pub Every {ℓ κ} : {A : Type ℓ} → (A → Type κ) → List A → Type κ
Every P [] = Unit
Every P (x ∷ xs) = P x × Every P xs

module _ {ℓ κ} {A : Type ℓ} (P : A → Type κ) where
  pub Every-append : (xs : List A) (y : A) → Every P xs → P y → Every P (xs ++ y ∷ [])
  Every-append [] y h g = (g, tt)
  Every-append (x ∷ xs) y (k, h) g = (k, Every-append xs y h g)

  -- An update of the first row with p, where f keeps the property at that row.
  pub Every-update_first :
      (p : A → Bool) (f : A → A) (xs : List A)
      → ((a : A) → select_first p xs ≡ some a → P a → P (f a))
      → Every P xs
      → Every P (update_first p f xs)
  unfolding update_first select_first
  Every-update_first p f [] keep h = h
  Every-update_first p f (x ∷ xs) keep (g, h) = elim (Bool-cases (p x)) [
    | inl hit ↦ rw hit (keep x (rw hit refl) g, h)
    | inr miss ↦ rw miss (g, Every-update_first p f xs (λ a e. keep a (rw miss e)) h)
  ]

  pub Every-mem : (xs : List A) (a : A) → Memᴰ a xs → Every P xs → P a
  Every-mem [] a m h = elim m [ ]
  Every-mem (x ∷ xs) a (Memᴰ.head e) (g, h) = subst P (sym e) g
  Every-mem (x ∷ xs) a (Memᴰ.tail m) (g, h) = Every-mem xs a m h
