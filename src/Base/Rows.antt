-- ===== src/Base/Rows.antt =====
-- Lemmas on the lists of Base: what `filter` keeps, `find` returns, `update_where` changes.
use package.knox_iam_public.Base.Tests.{Eq, Bool-cases}
use package.knox_iam_public.Base.Lists.{
  all, any, filter, find, count, update_where, All, contains, is_empty,
}
use mathlib.Core.Path.{◌≡◌, refl}
use mathlib.Core.Logic.{inl, inr}
use mathlib.Core.Bool.{Bool, true, false, ◌&&◌, not}
use mathlib.Core.Option.{some}
use mathlib.Core.List.{List, [], ◌∷◌}
use native.Mathlib.Omega.{arith}

module _ {ℓ} {A : Type ℓ} where
  pub filter-filter :
      (p q : A → Bool) (xs : List A) → filter p (filter q xs) ≡ filter (λ x. q x && p x) xs
  filter-filter p q [] = refl
  filter-filter p q (x ∷ xs) = elim (Bool-cases (q x)) [
    | inl e ↦ simp (e, filter-filter p q xs)
    | inr e ↦ simp (e, filter-filter p q xs)
  ]

  -- A filter that drops nothing.
  pub filter_all : (p : A → Bool) (xs : List A) → any (λ x. not (p x)) xs ≡ false → filter p xs ≡ xs
  filter_all p [] h = refl
  filter_all p (x ∷ xs) h = elim (Bool-cases (p x)) [
    | inl e ↦ simp (e, filter_all p xs (ground arith))
    | inr e ↦ absurd (ground arith)
  ]

  pub filter_ext :
      (p q : A → Bool) → ((x : A) → p x ≡ q x) → (xs : List A) → filter p xs ≡ filter q xs
  filter_ext p q h [] = refl
  filter_ext p q h (x ∷ xs) = simp (h x, filter_ext p q h xs)

  -- All that a filter keeps passes its test, and has what all had.
  pub All-filter {κ} :
      (P : A → Type κ) (p : A → Bool) (xs : List A)
      → All P xs
      → All (λ x. P x × (p x ≡ true)) (filter p xs)
  All-filter P p [] h = tt
  All-filter P p (x ∷ xs) (h, hs) = elim (Bool-cases (p x)) [
    | inl e ↦ rw e ((h, e), All-filter P p xs hs)
    | inr e ↦ rw e (All-filter P p xs hs)
  ]

  pub All-map {κ κ'} :
      {P : A → Type κ} {Q : A → Type κ'}
      → ((x : A) → P x → Q x)
      → (xs : List A) → All P xs
      → All Q xs
  All-map f [] h = tt
  All-map f (x ∷ xs) (h, hs) = (f x h, All-map f xs hs)

  pub find-some : (p : A → Bool) (xs : List A) {x : A} → find p xs ≡ some x → p x ≡ true
  find-some p [] h = cc
  find-some p (y ∷ ys) {x} h = elim (Bool-cases (p y)) [
    | inl e ↦ ground arith
    | inr e ↦ find-some p ys (ground arith)
  ]

  -- After an UPDATE that makes the condition false, no row has it.
  pub count-update_where_none :
      (p : A → Bool) (f : A → A)
      → ((x : A) → p x ≡ true → p (f x) ≡ false)
      → (xs : List A) → count p (update_where p f xs) ≡ 0
  count-update_where_none p f h [] = refl
  count-update_where_none p f h (x ∷ xs) = elim (Bool-cases (p x)) [
    | inl e ↦ simp (e, h x e, count-update_where_none p f h xs)
    | inr e ↦ simp (e, count-update_where_none p f h xs)
  ]

module _ {ℓ} {A : Type ℓ} ⦃e : Eq A⦄ where
  pub contains_weaken :
      (y : A) (ys xs : List A)
      → All (λ x. contains ys x ≡ true) xs
      → All (λ x. contains (y ∷ ys) x ≡ true) xs
  contains_weaken y ys xs h = All-map (λ x hx. ground arith) xs h

  pub All-contains : (xs : List A) → All (λ x. contains xs x ≡ true) xs
  All-contains [] = tt
  All-contains (x ∷ xs) = (ground (arith, e.eqb_iff x x), contains_weaken x xs xs (All-contains xs))

module _ {ℓ} {A : Type ℓ} where
  pub is_empty-filter : (p : A → Bool) (xs : List A) → not (is_empty (filter p xs)) ≡ any p xs
  is_empty-filter p [] = refl
  is_empty-filter p (x ∷ xs) = elim (Bool-cases (p x)) [
    | inl e ↦ simp e
    | inr e ↦ simp (e, is_empty-filter p xs)
  ]

  pub all-All : (p : A → Bool) (xs : List A) → all p xs ≡ true → All (λ x. p x ≡ true) xs
  all-All p [] h = tt
  all-All p (x ∷ xs) h = (ground arith, all-All p xs (ground arith))
