-- ===== src/Base/Lists.antt =====
-- Lists over the native numbers and Boolean tests, in the shape of Rust's iterator methods.
use Prim.Native.Nat.{ℕ, zero, suc}
use mathlib.Core.Bool.{Bool, true, false, ◌&&◌, ◌||◌}
use mathlib.Core.Option.{Option, none, some}
use mathlib.Core.List.{List, [], ◌∷◌}
use package.knox_iam_public.Base.Tests.{Eq, ◌==◌, if◌then◌else◌, ltb}

module _ {ℓ} {A : Type ℓ} where
  abbrev pub length : List A → ℕ
  length [] = 0
  length (x ∷ xs) = suc (length xs)

  abbrev pub all : (A → Bool) → List A → Bool
  all p [] = true
  all p (x ∷ xs) = p x && all p xs

  abbrev pub any : (A → Bool) → List A → Bool
  any p [] = false
  any p (x ∷ xs) = p x || any p xs

  abbrev pub is_empty : List A → Bool
  is_empty [] = true
  is_empty (x ∷ xs) = false

  -- `filter` and `retain`
  abbrev pub filter : (A → Bool) → List A → List A
  filter p [] = []
  filter p (x ∷ xs) = let rest = filter p xs in if p x then x ∷ rest else rest

  -- The first row that a `SELECT` with this condition finds.
  abbrev pub find : (A → Bool) → List A → Option A
  find p [] = none
  find p (x ∷ xs) = if p x then some x else find p xs

  abbrev pub newer : (A → ℕ) → A → Option A → Option A
  newer at x none = some x
  newer at x (some y) = if ltb (at x) (at y) then some y else some x

  -- `ORDER BY … DESC LIMIT 1` on the rows with this condition: the first of the newest.
  abbrev pub find_latest : (A → Bool) → (A → ℕ) → List A → Option A
  find_latest p at [] = none
  find_latest p at (x ∷ xs) =
      let rest = find_latest p at xs in if p x then newer at x rest else rest

  -- `ORDER BY … DESC`: of equal rows the one that stands first comes first.
  abbrev pub insert_desc : (A → ℕ) → A → List A → List A
  insert_desc at x [] = x ∷ []
  insert_desc at x (y ∷ ys) =
      let rest = insert_desc at x ys in if ltb (at x) (at y) then y ∷ rest else x ∷ y ∷ ys

  abbrev pub sort_desc : (A → ℕ) → List A → List A
  sort_desc at [] = []
  sort_desc at (x ∷ xs) = insert_desc at x (sort_desc at xs)

  abbrev pub count : (A → Bool) → List A → ℕ
  count p [] = 0
  count p (x ∷ xs) = let rest = count p xs in if p x then suc rest else rest

  -- An `UPDATE` with this condition.
  abbrev pub update_where : (A → Bool) → (A → A) → List A → List A
  update_where p f [] = []
  update_where p f (x ∷ xs) = (if p x then f x else x) ∷ update_where p f xs

  abbrev pub take : ℕ → List A → List A
  take zero xs = []
  take (suc n) [] = []
  take (suc n) (x ∷ xs) = x ∷ take n xs

  abbrev pub drop : ℕ → List A → List A
  drop zero xs = xs
  drop (suc n) [] = []
  drop (suc n) (x ∷ xs) = drop n xs

  abbrev pub All {κ} : (A → Type κ) → List A → Type κ
  All P [] = Unit
  All P (x ∷ xs) = P x × All P xs

module _ {ℓ} {A : Type ℓ} ⦃e : Eq A⦄ where
  abbrev pub contains : List A → A → Bool
  contains [] a = false
  contains (x ∷ xs) a = x == a || contains xs a
